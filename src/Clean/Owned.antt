-- ===== src/Clean/Owned.antt =====
-- storage/orphan_sweep.go: which files the sweep queues, and which it leaves alone.
use mathlib.Core.List.{append-nil, append_assoc}
use ocache.Base.{
  Bool, Bool-cases, Bytes, List, Option, [], ap, arith, bytes_eq, bytes_eq_iff, false, if-each,
  if◌then◌else◌, inl, inr, none, not, refl, some, subst, sym, true, ℕ, ◌%◌, ◌&&◌, ◌++◌, ◌+◌, ◌==◌,
  ◌∙◌, ◌∷◌, ◌≡◌,
}
use ocache.Base.Int.{ltb_ℤ, pos, ℤ, ◌-ℤ◌}
use ocache.Base.Assoc.{lookup}
use ocache.Clean.Spared.{Spares, Spares-append}
use ocache.Clean.Indexed.{bytes_eq-append}
use ocache.Clean.Orphans.{
  DirEntry, OrphanSweep, join, new_orphan_sweep, sweep_entries, sweep_orphan_raw_files, visit_entry,
  visit_file, visit_unreferenced,
}

-- Whether the sweep takes the file for an orphan.
abbrev pub is_old : ℤ → Option (ℤ × ℤ) → Bool
is_old cutoff none = false
is_old cutoff (some (size, mod_time)) = not (ltb_ℤ cutoff mod_time)

abbrev pub is_unowned : Option ℤ → Bool
is_unowned none = true
is_unowned (some size) = false

unfoldable pub is_orphan : List (Bytes × ℤ) → ℤ → DirEntry → Bool
is_orphan referenced cutoff e =
    not e.is_dir
    && (is_unowned (lookup e.name referenced)
        && (is_old cutoff e.info && (not e.in_flight && e.lock_free)))

-- The paths of the orphans, in the order of the listing.
unfoldable pub orphan_paths : Bytes → List (Bytes × ℤ) → ℤ → List DirEntry → List Bytes
orphan_paths dir referenced cutoff [] = []
orphan_paths dir referenced cutoff (e ∷ es) =
    let rest = orphan_paths dir referenced cutoff es in
    if is_orphan referenced cutoff e then join dir e.name ∷ rest else rest

abbrev pub StaysOpen : List DirEntry → Type 0
StaysOpen [] = Unit
StaysOpen (e ∷ es) = (e.closed ≡ false) × StaysOpen es

&&-false : (b c : Bool) → c ≡ false → (b && c) ≡ false
&&-false true c h = h
&&-false false c h = refl

one-append :
    (path : Bytes) (orphan : Bool) (qs ps rest : List Bytes)
    → ps ≡ qs ++ (if orphan then path ∷ [] else [])
    → ps ++ rest ≡ qs ++ (if orphan then path ∷ rest else rest)
one-append path true qs ps rest h = ap (◌++ rest) h ∙ append_assoc qs (path ∷ []) rest
one-append path false qs ps rest h = ap (◌++ rest) (h ∙ append-nil qs)

module _ (dir : Bytes) (referenced : List (Bytes × ℤ)) (cutoff : ℤ) where
  -- One entry queues its path or nothing.
  abbrev one : DirEntry → Bool → List Bytes
  one e orphan = if orphan then join dir e.name ∷ [] else []

  unreferenced-queued :
      (e : DirEntry) (o : Option (ℤ × ℤ)) (st : OrphanSweep)
      → (visit_unreferenced dir referenced cutoff e o st).queued
        ≡ st.queued ++ one e (is_old cutoff o && (not e.in_flight && e.lock_free))
  unfolding visit_unreferenced
  unreferenced-queued e none st = sym (append-nil st.queued)
  unreferenced-queued e (some (size, mod_time)) st = ground (arith, append-nil st.queued)

  file-queued :
      (e : DirEntry) (o : Option ℤ) (st : OrphanSweep)
      → (visit_file dir referenced cutoff e o st).queued
        ≡ st.queued
          ++ one e (is_unowned o && (is_old cutoff e.info && (not e.in_flight && e.lock_free)))
  unfolding visit_file
  file-queued e none st = unreferenced-queued e e.info st
  file-queued e (some size) st = sym (append-nil st.queued)

  entry-queued :
      (e : DirEntry) (st : OrphanSweep)
      → (visit_entry dir referenced cutoff e st).queued
        ≡ st.queued ++ one e (is_orphan referenced cutoff e)
  unfolding visit_entry is_orphan
  entry-queued e st =
      elim e.is_dir
        as (λ b.
          (if b
            then st
            else visit_file dir referenced cutoff e (lookup e.name referenced) st).queued
          ≡ st.queued
            ++ one e (
                not b
                && (is_unowned (lookup e.name referenced)
                    && (is_old cutoff e.info && (not e.in_flight && e.lock_free))))) [
                      | true ↦ sym (append-nil st.queued)
                      | false ↦ file-queued e (lookup e.name referenced) st
                    ]

  sweep_entries-queued :
      (i : ℕ) (es : List DirEntry) (st : OrphanSweep)
      → StaysOpen es
      → ((sweep_entries dir referenced cutoff i es st).0 ≡ true)
        × ((sweep_entries dir referenced cutoff i es st).1.queued
            ≡ st.queued ++ orphan_paths dir referenced cutoff es)
  unfolding sweep_entries orphan_paths
  sweep_entries-queued i [] st h = (refl, sym (append-nil st.queued))
  sweep_entries-queued i (e ∷ es) st (open_, h) =
      let next : OrphanSweep = visit_entry dir referenced cutoff e st in
      let ih = sweep_entries-queued (i + 1) es next h in
      rw (&&-false (i % 1000 == 0) e.closed open_) (
        ih.0,
        ih.1
            ∙ one-append (join dir e.name) (is_orphan referenced cutoff e) st.queued next.queued _
                (entry-queued e st),
      )

  -- A path that is not queued for an entry.
  Spares-one :
      (path : Bytes) (e : DirEntry) (o : Bool) (qs : List Bytes)
      → (o ≡ true → bytes_eq path (join dir e.name) ≡ false)
      → Spares path qs
      → Spares path (qs ++ one e o)
  Spares-one path e true qs h s = Spares-append path (join dir e.name) qs (h refl) s
  Spares-one path e false qs h s = subst (Spares path) (sym (append-nil qs)) s

  referred-is_orphan :
      (name : Bytes) (e : DirEntry)
      → is_unowned (lookup name referenced) ≡ false
      → is_orphan referenced cutoff e ≡ true
      → bytes_eq (join dir name) (join dir e.name) ≡ false
  unfolding is_orphan bytes_eq
  referred-is_orphan name e known orphan =
      bytes_eq-append dir (b'/' ∷ name) (b'/' ∷ e.name) ∙ elim (Bool-cases (bytes_eq name e.name)) [
        | inr other ↦ other
        | inl same ↦
            let eq : name ≡ e.name = (bytes_eq_iff name e.name).0 same in
            let unowned : is_unowned (lookup e.name referenced) ≡ true = ground arith in absurd (cc)
      ]

  pub sweep_entries-Spares :
      (name : Bytes) (i : ℕ) (es : List DirEntry) (st : OrphanSweep)
      → is_unowned (lookup name referenced) ≡ false
      → Spares (join dir name) st.queued
      → Spares (join dir name) (sweep_entries dir referenced cutoff i es st).1.queued
  unfolding sweep_entries
  sweep_entries-Spares name i [] st known s = s
  sweep_entries-Spares name i (e ∷ es) st known s =
      let next : OrphanSweep = visit_entry dir referenced cutoff e st in
      let kept : Spares (join dir name) next.queued =
        subst (Spares (join dir name)) (sym (entry-queued e st)) (
          Spares-one (join dir name) e (is_orphan referenced cutoff e) st.queued
            (referred-is_orphan name e known) s) in
      if-each (λ (r : Bool × OrphanSweep). Spares (join dir name) (r.1.queued))
        ((i % 1000 == 0) && e.closed) s (sweep_entries-Spares name (i + 1) es next known kept)

-- A sweep that is not interrupted queues the orphans of the listing, each once and in its order, behind what
-- was queued: the files that no row refers to, last written ten minutes before the scan or earlier, not
-- registered as being written, and whose lock is free. A listing that fails queues nothing.
pub sweep_orphan_raw_files-queued :
    (dir : Bytes) (referenced : List (Bytes × ℤ)) (scan_start : ℤ) (es : List DirEntry)
    (queued : List Bytes)
    → StaysOpen es
    → ((sweep_orphan_raw_files dir referenced scan_start (some es) queued).0 ≡ true)
      × ((sweep_orphan_raw_files dir referenced scan_start (some es) queued).1.queued
          ≡ queued ++ orphan_paths dir referenced (scan_start -ℤ pos 600000000000) es)
      × ((sweep_orphan_raw_files dir referenced scan_start none queued).1.queued ≡ queued)
unfolding sweep_orphan_raw_files
sweep_orphan_raw_files-queued dir referenced scan_start es queued h =
    let all =
      sweep_entries-queued dir referenced (scan_start -ℤ pos 600000000000) 0 es
        (new_orphan_sweep queued) h in
    (all.0, all.1, refl)
