-- ===== src/Tests/Failures.antt =====
-- The theorems on errors at concrete ones.
use corebluetooth_rs.Prelude.{ok, err, ◌≡◌, ◌↔◌, ◌⊎◌}
use corebluetooth_rs.Error.Async
use corebluetooth_rs.Error.Kinds.{kind_try_into_sync_iff}
use corebluetooth_rs.Error.Sync

kind_try_into_sync_example :
    ((Async.kind_try_into_sync Async.ErrorKind.lagged ≡ ok Sync.ErrorKind.other)
      ↔ (Async.ErrorKind.lagged ≡ Async.kind_from_sync Sync.ErrorKind.other))
    × ((Async.kind_try_into_sync Async.ErrorKind.lagged ≡ err Async.ErrorKind.lagged) ↔ (
        (Async.ErrorKind.lagged ≡ Async.ErrorKind.lagged)
        × ((Async.ErrorKind.lagged ≡ Async.ErrorKind.canceled)
            ⊎ (Async.ErrorKind.lagged ≡ Async.ErrorKind.lagged))))
kind_try_into_sync_example =
    kind_try_into_sync_iff Async.ErrorKind.lagged Sync.ErrorKind.other Async.ErrorKind.lagged
