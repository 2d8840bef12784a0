-- ===== src/Error/Sync.antt =====
-- corebluetooth/src/error.rs: the error type and its kinds.
use corebluetooth_rs.Prelude.{Option, none, some}
use corebluetooth_rs.Error.Codes.{
  CbError, CbAttError, cb_error_domain, cb_att_error_domain, foreign_domain, Domain, NsError,
  ErrorCodes,
}

pub data ErrorKind : Type 0 where
  bluetooth : CbError → ErrorKind
  att : CbAttError → ErrorKind
  other : ErrorKind

pub data ErrorData : Type 0 where
  os : NsError → ErrorData
  simple : ErrorKind → ErrorData

pub record Error : Type 0 where
  pub payload : ErrorData

unfoldable pub from_kind : ErrorKind → Error
from_kind kind = record { payload = ErrorData.simple kind }

unfoldable pub from_nserror : NsError → Error
from_nserror error = record { payload = ErrorData.os error }

unfoldable pub from_nserror_or_kind : Option NsError → ErrorKind → Error
unfolding from_nserror
from_nserror_or_kind (some error) kind = from_nserror error
from_nserror_or_kind none kind = record { payload = ErrorData.simple kind }

ref_of : ErrorData → Option NsError
ref_of (ErrorData.os error) = some error
ref_of (ErrorData.simple kind) = none

unfoldable pub get_ref : Error → Option NsError
unfolding ref_of
get_ref e = ref_of e.payload

unfoldable pub into_inner : Error → Option NsError
into_inner e = elim (e.payload) [ ErrorData.os error ↦ some error | ErrorData.simple kind ↦ none ]

-- `Error::source` boxes what `get_ref` returns.
unfoldable pub source : Error → Option NsError
source e = get_ref e

module _ (codes : ErrorCodes) where
  kind_at : Domain → NsError → ErrorKind
  kind_at cb_error_domain error = ErrorKind.bluetooth (codes.cb_error error.code)
  kind_at cb_att_error_domain error = ErrorKind.att (codes.cb_att_error error.code)
  kind_at (foreign_domain d) error = ErrorKind.other

  -- `impl From<&NSError> for ErrorKind`
  unfoldable pub kind_of_nserror : NsError → ErrorKind
  unfolding kind_at
  kind_of_nserror error = kind_at error.domain error

  unfoldable pub kind : Error → ErrorKind
  kind e = elim (e.payload) [ ErrorData.os error ↦ kind_of_nserror error | ErrorData.simple k ↦ k ]
