-- ===== src/Error/Async.antt =====
-- corebluetooth-async/src/error.rs: the error type of the asynchronous crate, its kinds and the
-- conversions from and to those of corebluetooth.
use Prim.Native.String.{String}
use corebluetooth_rs.Prelude.{Option, none, some, Result, ok, err}
use corebluetooth_rs.Error.Codes.{CbError, CbAttError, ErrorCodes}
use corebluetooth_rs.Error.Display
use corebluetooth_rs.Error.Sync

pub data ErrorKind : Type 0 where
  bluetooth : CbError → ErrorKind
  att : CbAttError → ErrorKind
  canceled : ErrorKind
  lagged : ErrorKind
  other : ErrorKind

pub data ErrorData : Type 0 where
  os : Sync.Error → ErrorData
  simple : ErrorKind → ErrorData

pub record Error : Type 0 where
  pub payload : ErrorData

-- `impl From<corebluetooth::error::ErrorKind> for ErrorKind`
unfoldable pub kind_from_sync : Sync.ErrorKind → ErrorKind
kind_from_sync (Sync.ErrorKind.bluetooth cberror) = ErrorKind.bluetooth cberror
kind_from_sync (Sync.ErrorKind.att cbatterror) = ErrorKind.att cbatterror
kind_from_sync Sync.ErrorKind.other = ErrorKind.other

-- `impl TryFrom<ErrorKind> for corebluetooth::error::ErrorKind`
unfoldable pub kind_try_into_sync : ErrorKind → Result Sync.ErrorKind ErrorKind
kind_try_into_sync (ErrorKind.bluetooth cberror) = ok (Sync.ErrorKind.bluetooth cberror)
kind_try_into_sync (ErrorKind.att cbatterror) = ok (Sync.ErrorKind.att cbatterror)
kind_try_into_sync ErrorKind.other = ok Sync.ErrorKind.other
kind_try_into_sync ErrorKind.canceled = err ErrorKind.canceled
kind_try_into_sync ErrorKind.lagged = err ErrorKind.lagged

unfoldable pub from_error : Sync.Error → Error
from_error error = record { payload = ErrorData.os error }

unfoldable pub from_kind : ErrorKind → Error
from_kind kind = record { payload = ErrorData.simple kind }

unfoldable pub from_sync_kind : Sync.ErrorKind → Error
unfolding kind_from_sync
from_sync_kind kind = record { payload = ErrorData.simple (kind_from_sync kind) }

-- `impl From<oneshot::Canceled> for Error` and `impl From<async_broadcast::RecvError> for Error`
unfoldable pub from_canceled : Error
unfolding from_kind
from_canceled = from_kind ErrorKind.canceled

unfoldable pub from_recv_error : Error
unfolding from_kind
from_recv_error = from_kind ErrorKind.lagged

unfoldable pub get_ref : Error → Option Sync.Error
get_ref e = elim (e.payload) [ ErrorData.os error ↦ some error | ErrorData.simple kind ↦ none ]

unfoldable pub into_inner : Error → Option Sync.Error
into_inner e = elim (e.payload) [ ErrorData.os error ↦ some error | ErrorData.simple kind ↦ none ]

unfoldable pub kind : ErrorCodes → Error → ErrorKind
unfolding kind_from_sync
kind codes e = elim (e.payload) [
  | ErrorData.os error ↦ kind_from_sync (Sync.kind codes error)
  | ErrorData.simple k ↦ k
]

-- `impl Display for ErrorKind` and `impl Display for Error`
module _ (printer : Display.Printer) where
  unfoldable pub fmt_kind : ErrorKind → String
  fmt_kind (ErrorKind.bluetooth cberror) =
      Display.fmt_kind printer (Sync.ErrorKind.bluetooth cberror)
  fmt_kind (ErrorKind.att cbatterror) = Display.fmt_kind printer (Sync.ErrorKind.att cbatterror)
  fmt_kind ErrorKind.other = Display.fmt_kind printer Sync.ErrorKind.other
  fmt_kind ErrorKind.canceled = "canceled"
  fmt_kind ErrorKind.lagged = "lagged"

  unfoldable pub fmt_error : Error → String
  fmt_error e = elim (e.payload) [
    | ErrorData.os error ↦ Display.fmt_error printer error
    | ErrorData.simple kind ↦ fmt_kind kind
  ]
