-- ===== src/Fd/Entry.antt =====
-- storage/fd/fdcache.go: one FileEntry and the callers that share it. Each step is one successful
-- compare-and-swap on `refs` or one action between two of them; a failed one reads again and tries anew.
use ocache.Base.{Bool, false, suc, true, zero, ℕ, ◌+◌, ◌≡◌}

-- `refs`: a count, or refsClosed (-1).
pub data Refs : Type 0 where
  counted : ℕ → Refs
  refs_closed : Refs

-- What `f` is: the opener is still at it, os.OpenFile failed, or the file.
pub data Opened : Type 0 where
  opening open_failed opened : Opened

-- `holding` callers have taken a reference and not dropped it, `closing` own the close and have not run
-- it, and `closed` is how often the close has run.
pub record FileEntry : Type 0 where
  pub refs : Refs
  pub file : Opened
  pub holding : ℕ
  pub closing : ℕ
  pub closed : ℕ

-- As Acquire stores it: the opener's reference.
abbrev pub new_entry : FileEntry
new_entry = record { refs = counted 1; file = opening; holding = 1; closing = 0; closed = 0 }

-- The count behind the call, and whether the caller got a reference.
unfoldable pub try_acquire_ref : Refs → Refs × Bool
try_acquire_ref refs_closed = (refs_closed, false)
try_acquire_ref (counted zero) = (counted zero, false)
try_acquire_ref (counted (suc n)) = (counted (suc n + 1), true)

-- The count behind the call, and whether the caller owns the close.
unfoldable pub drop_ref : Refs → Refs × Bool
drop_ref refs_closed = (refs_closed, false)
drop_ref (counted zero) = (counted zero, false)
drop_ref (counted (suc zero)) = (refs_closed, true)
drop_ref (counted (suc (suc n))) = (counted (suc n), false)

-- Remove's CompareAndSwap from 0 to refsClosed.
unfoldable pub claim_unheld : Refs → Refs × Bool
claim_unheld refs_closed = (refs_closed, false)
claim_unheld (counted zero) = (refs_closed, true)
claim_unheld (counted (suc n)) = (counted (suc n), false)

abbrev pub count : Bool → ℕ
count true = 1
count false = 0

abbrev pub acquire : FileEntry → FileEntry
acquire e = record e {
  refs = (try_acquire_ref e.refs).0;
  holding = e.holding + count (try_acquire_ref e.refs).1;
}

-- Release, and the drop of a waiter or an opener whose file could not be opened: one holder fewer.
abbrev pub release : ℕ → FileEntry → FileEntry
release holding e = record e {
  refs = (drop_ref e.refs).0;
  holding = holding;
  closing = e.closing + count (drop_ref e.refs).1;
}

-- Remove closes the file itself where it claimed an entry that nobody holds.
abbrev pub remove : FileEntry → FileEntry
remove e = record e {
  refs = (claim_unheld e.refs).0;
  closed = e.closed + count (claim_unheld e.refs).1;
}

abbrev pub is_ready : Opened → Bool
is_ready opening = false
is_ready open_failed = true
is_ready opened = true

-- Any caller may act next. The opener sets the file and closes `ready`; whoever drops a reference, closes
-- or removes has waited for `ready` first.
pub data Step (e : FileEntry) : FileEntry → Type 0 where
  joins : Step e (acquire e)
  opens : (o : Opened) → e.file ≡ opening → is_ready o ≡ true → Step e (record e { file = o })
  drops : (h : ℕ) → e.holding ≡ suc h → is_ready e.file ≡ true → Step e (release h e)
  closes :
      (c : ℕ)
      → e.closing ≡ suc c
      → is_ready e.file ≡ true
      → Step e (record e { closing = c; closed = e.closed + 1 })
  removes : is_ready e.file ≡ true → Step e (remove e)

pub data Reach : FileEntry → Type 0 where
  start : Reach new_entry
  later : {e f : FileEntry} → Reach e → Step e f → Reach f
