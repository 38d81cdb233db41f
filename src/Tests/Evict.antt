-- ===== src/Tests/Evict.antt =====
-- An eviction pass at concrete inputs.
use ocache.Base.{List, [], codes, false, length, none, refl, some, true, ℕ, ◌∷◌, ◌≡◌, ◌≤◌}
use ocache.Base.Int.{pos, ℤ, ◌+ℤ◌, ◌-ℤ◌}
use ocache.Keys.Format.{parse_fifo_index_key}
use ocache.Merge.Row.{ValueMessage, raw_file, zero_message}
use ocache.Merge.Codec.{Codec}
use ocache.Merge.SampleCodec.{sample_codec}
use ocache.Keys.Text.{has_prefix}
use ocache.Evict.Choice.{Moves, visit-Moves}
use ocache.Evict.Pass.{Look, Pass, evict_by_index, fifo_eviction_index, new_pass, visit}
use ocache.Evict.Account.{evict_by_index-counts, reclaimed, total}
use ocache.Evict.Batch.{Orderly, evict_by_index-Orderly}

abbrev raw : ValueMessage
raw = record zero_message {
  value_type = raw_file;
  raw_file_path = codes "raw/1";
  value_length = pos 70;
}

-- Every row is the same raw file.
abbrev codec : Codec
codec = record sample_codec { unmarshal = λ b. some raw }

-- The entry of the key "a", which its back-reference names; an orphan; and an entry of the key "b" that
-- has been superseded.
abbrev looks : List Look
looks =
    record {
      closed = false;
      written = true;
      entry = codes "!fifo/0000000000000000005/a";
      row = some (some (codes "row"));
      now = 9;
      backref = some (some (codes "!fifo/0000000000000000005/a"));
    }
    ∷ record {
      closed = false;
      written = true;
      entry = codes "!fifo/0000000000000000006/c";
      row = some none;
      now = 9;
      backref = some none;
    }
    ∷ record {
      closed = false;
      written = true;
      entry = codes "!fifo/0000000000000000007/b";
      row = some (some (codes "row"));
      now = 9;
      backref = some (some (codes "!fifo/0000000000000000008/b"));
    }
    ∷ []

abbrev look : Look
look = record {
  closed = false;
  written = true;
  entry = codes "!fifo/0000000000000000005/a";
  row = some (some (codes "row"));
  now = 9;
  backref = some none;
}

visit-Moves_case :
    Moves fifo_eviction_index codec look new_pass (visit fifo_eviction_index codec look new_pass)
visit-Moves_case = visit-Moves fifo_eviction_index codec look new_pass

abbrev outcome : ℕ × (ℤ × Pass)
outcome = evict_by_index fifo_eviction_index codec (pos 100) looks true

evict_by_index-counts_example :
    (outcome.0 ≡ length (reclaimed outcome.1.1.log))
    × (outcome.1.0 ≡ pos 0 -ℤ total (reclaimed outcome.1.1.log))
evict_by_index-counts_example = evict_by_index-counts fifo_eviction_index codec (pos 100) looks true

evict_by_index-Orderly_example :
    Orderly fifo_eviction_index codec looks outcome.1.1.log × (length outcome.1.1.batch ≤ 0)
evict_by_index-Orderly_example =
    evict_by_index-Orderly fifo_eviction_index codec (pos 100) looks true

one_key_goes : outcome.0 ≡ 1
unfolding evict_by_index ◌+ℤ◌ parse_fifo_index_key has_prefix
one_key_goes = refl
