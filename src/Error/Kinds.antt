-- ===== src/Error/Kinds.antt =====
-- The conversions between the kinds of corebluetooth/src/error.rs and those of
-- corebluetooth-async/src/error.rs.
use corebluetooth_rs.Prelude.{ok, err, ◌≡◌, ◌↔◌, ◌⊎◌, arith}
use corebluetooth_rs.Error.Async
use corebluetooth_rs.Error.Sync

-- A kind of the asynchronous crate converts to `k` exactly when it is the image of `k`, and is
-- given back as it was exactly when it is `Canceled` or `Lagged`.
pub kind_try_into_sync_iff :
    (kind : Async.ErrorKind) (k : Sync.ErrorKind) (back : Async.ErrorKind)
    → ((Async.kind_try_into_sync kind ≡ ok k) ↔ (kind ≡ Async.kind_from_sync k))
      × ((Async.kind_try_into_sync kind ≡ err back)
          ↔ ((kind ≡ back) × ((kind ≡ Async.ErrorKind.canceled) ⊎ (kind ≡ Async.ErrorKind.lagged))))
unfolding Async.kind_try_into_sync Async.kind_from_sync
kind_try_into_sync_iff kind k back = ((ground arith, ground arith), (ground arith, ground arith))
