-- ===== src/Fd/Close.antt =====
-- storage/fd/fdcache.go: a file is closed once, after its last holder has let go, and not before.
use ocache.Base.{arith, refl, subst, suc, true, zero, ℕ, ◌+◌, ◌<◌, ◌≡◌}
use ocache.Fd.Entry.{
  FileEntry, Reach, Refs, Step, claim_unheld, closes, count, counted, drop_ref, drops, is_ready,
  joins, later, opens, refs_closed, release, removes, start, try_acquire_ref,
}

-- The count is that of the holders until the last one claims the close; from then on nobody holds the
-- entry, and the close is owed or done, once.
abbrev pub Owed : Refs → ℕ → ℕ → ℕ → Type 0
Owed (counted n) holding closing closed = (0 < n) × (holding ≡ n) × (closing ≡ 0) × (closed ≡ 0)
Owed refs_closed holding closing closed = (holding ≡ 0) × (closing + closed ≡ 1)

abbrev pub Fair : FileEntry → Type 0
Fair e = Owed e.refs e.holding e.closing e.closed

acquire-Owed :
    (r : Refs) (h c d : ℕ)
    → Owed r h c d
    → Owed (try_acquire_ref r).0 (h + count (try_acquire_ref r).1) c d
unfolding try_acquire_ref
acquire-Owed refs_closed h c d (none_holds, once) = (omega arith, once)
acquire-Owed (counted zero) h c d (some_ref, held, a, b) = absurd (omega arith)
acquire-Owed (counted (suc n)) h c d (some_ref, held, a, b) = (omega arith, omega arith, a, b)

release-Owed :
    (r : Refs) (h c d : ℕ) → Owed r (suc h) c d → Owed (drop_ref r).0 h (c + count (drop_ref r).1) d
unfolding drop_ref
release-Owed refs_closed h c d (none_holds, once) = absurd (omega arith)
release-Owed (counted zero) h c d (some_ref, held, a, b) = absurd (omega arith)
release-Owed (counted (suc zero)) h c d (some_ref, held, a, b) = (omega arith, omega arith)
release-Owed (counted (suc (suc n))) h c d (some_ref, held, a, b) =
    (omega arith, omega arith, omega arith, b)

remove-Owed :
    (r : Refs) (h c d : ℕ)
    → Owed r h c d
    → Owed (claim_unheld r).0 h c (d + count (claim_unheld r).1)
unfolding claim_unheld
remove-Owed refs_closed h c d (none_holds, once) = (none_holds, omega arith)
remove-Owed (counted zero) h c d (some_ref, held, a, b) = absurd (omega arith)
remove-Owed (counted (suc n)) h c d (some_ref, held, a, b) = (some_ref, held, a, omega arith)

close-Owed : (r : Refs) (h c d : ℕ) → Owed r h (suc c) d → Owed r h c (d + 1)
close-Owed refs_closed h c d (none_holds, once) = (none_holds, omega arith)
close-Owed (counted n) h c d (some_ref, held, a, b) = absurd (omega arith)

Step-Fair : {e f : FileEntry} → Step e f → Fair e → Fair f
Step-Fair {e} joins fair = acquire-Owed e.refs e.holding e.closing e.closed fair
Step-Fair {e} (opens o was is) fair = fair
Step-Fair {e} (drops h held ready) fair =
    release-Owed e.refs h e.closing e.closed
      (subst (λ n. Owed e.refs n e.closing e.closed) held fair)
Step-Fair {e} (closes c owed ready) fair =
    close-Owed e.refs e.holding c e.closed (subst (λ n. Owed e.refs e.holding n e.closed) owed fair)
Step-Fair {e} (removes ready) fair = remove-Owed e.refs e.holding e.closing e.closed fair

-- In whatever order any number of callers acquire, release and remove an entry, each releasing what it
-- acquired: the count is the number of holders, at least one, with no close run or owed, until the last
-- holder lets go; then nobody holds the entry any more and exactly one close is owed or has run.
pub Reach-Fair : {e : FileEntry} → Reach e → Fair e
Reach-Fair start = (omega arith, refl, refl, refl)
Reach-Fair (later r s) = Step-Fair s (Reach-Fair r)

pub data Steps : FileEntry → FileEntry → Type 0 where
  rests : {e : FileEntry} → Steps e e
  then_steps : {e f g : FileEntry} → Step e f → Steps f g → Steps e g

-- The last close is run by the caller that owes it.
owed-closes :
    (e : FileEntry)
    → e.holding ≡ 0
    → e.closing + e.closed ≡ 1
    → is_ready e.file ≡ true
    → (f : FileEntry) × Steps e f × (f.closed ≡ 1)
owed-closes e none_holds once ready =
    elim e.closing
        as (λ c. e.closing ≡ c → c + e.closed ≡ 1 → (f : FileEntry) × Steps e f × (f.closed ≡ 1)) [
          | zero ↦ λ c o. (e, rests, omega arith)
          | suc c ↦ λ owed o. (
            record e { closing = c; closed = e.closed + 1 },
            then_steps (closes c owed ready) rests,
            omega arith,
          )
        ]
      refl once

-- Each release brings the close nearer.
holders-close :
    (h : ℕ) (e : FileEntry)
    → e.holding ≡ h
    → Fair e
    → is_ready e.file ≡ true
    → (f : FileEntry) × Steps e f × (f.closed ≡ 1)
holders-close zero e held fair ready =
    elim e.refs
        as (λ r.
          Owed r e.holding e.closing e.closed → (f : FileEntry) × Steps e f × (f.closed ≡ 1)) [
            | counted n ↦ λ o. absurd (omega (arith, o.0, o.1))
            | refs_closed ↦ λ o. owed-closes e o.0 o.1 ready
          ]
      fair
holders-close (suc h) e held fair ready =
    let step : Step e (release h e) = drops h held ready in
    let (f, steps, done) = holders-close h (release h e) refl (Step-Fair step fair) ready in
    (f, then_steps step steps, done)

-- The close is not lost: from every state that callers can reach in which the open has ended, there are
-- further steps to a state in which it has run, once.
pub Reach-Steps :
    {e : FileEntry}
    → Reach e
    → is_ready e.file ≡ true
    → (f : FileEntry) × Steps e f × (f.closed ≡ 1)
Reach-Steps {e} r ready = holders-close e.holding e refl (Reach-Fair r) ready
