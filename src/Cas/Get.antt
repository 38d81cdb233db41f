-- ===== src/Cas/Get.antt =====
-- storage/cas.go: GetWithVersion and absenceToken.
use ocache.Base.{Bool, Bytes, Option, false, none, some, ℕ}
use ocache.Merge.Row.{ValueMessage, ValueType, inline, raw_file, segment, unknown_type}
use ocache.Cas.State.{CasRowState, Read, cas_absent, cas_classify, cas_fenced, cas_live}
use ocache.Cas.Io.{Failure, corruption, internal_error, io_retryable, lock_error, rocksdb_error}

-- What a reader of a segment or a raw file answers: its bytes, nothing, or an error.
pub data Opened : Type 0 where
  opened : Bytes → Opened
  nothing locked unreadable : Opened

-- The value with its version, an absent key with its token, or an error.
pub data GetResult : Type 0 where
  found : Bytes → ℕ → GetResult
  absent : ℕ → GetResult
  get_failed : Failure → GetResult

-- `fresh` is the answer of nextVersion.
unfoldable pub absence_token : CasRowState → ℕ → Option ℕ → Option ℕ
absence_token cas_fenced fence fresh = some fence
absence_token cas_absent fence fresh = fresh
absence_token cas_live fence fresh = fresh

abbrev from_segment : Opened → ℕ → GetResult
from_segment (opened b) version = found b version
from_segment nothing version = absent 0
from_segment locked version = get_failed io_retryable
from_segment unreadable version = get_failed io_retryable

abbrev from_raw_file : Opened → ℕ → GetResult
from_raw_file (opened b) version = found b version
from_raw_file nothing version = absent 0
from_raw_file locked version = get_failed lock_error
from_raw_file unreadable version = get_failed io_retryable

unfoldable pub read_value : ValueType → Bytes → Opened → ℕ → GetResult
read_value inline body o version = found body version
read_value segment body o version = from_segment o version
read_value raw_file body o version = from_raw_file o version
read_value (unknown_type n) body o version = get_failed corruption

unfoldable pub absent_with : Option ℕ → GetResult
absent_with none = get_failed internal_error
absent_with (some token) = absent token

-- What is returned, and whether the key's access time was refreshed; `updater` tells whether there is an
-- access updater. A missing row is never live (`cas_classify`), so that clause is not reached.
unfoldable pub answer :
    Bool → CasRowState → ℕ → Option ValueMessage → Option ℕ → Opened → GetResult × Bool
unfolding absence_token read_value absent_with
answer updater cas_live cur (some vm) fresh o = (read_value vm.value_type vm.body o cur, updater)
answer updater cas_live cur none fresh o = (absent_with fresh, false)
answer updater cas_fenced cur row fresh o =
    (absent_with (absence_token cas_fenced cur fresh), false)
answer updater cas_absent cur row fresh o =
    (absent_with (absence_token cas_absent cur fresh), false)

unfoldable pub get_with_version : Bool → Read → ℕ → Option ℕ → Opened → GetResult × Bool
unfolding cas_classify answer
get_with_version updater none now fresh o = (get_failed rocksdb_error, false)
get_with_version updater (some row) now fresh o =
    let (state, cur) = cas_classify now row in answer updater state cur row fresh o
