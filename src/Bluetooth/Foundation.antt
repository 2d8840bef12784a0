-- ===== src/Bluetooth/Foundation.antt =====
-- The Foundation objects that CoreBluetooth hands to the crate corebluetooth as `AnyObject`, by
-- what the code reads of them after a `downcast`: of an `NSNumber` its `as_bool`, its
-- `shortValue` (the 16 bits of the i16) and its `as_u16`, of an `NSString` its text and the bytes
-- that `UTF8String` points to (none for a null pointer), of a `CBUUID` its data.
use corebluetooth_rs.Prelude.{ℕ, Bool, Option}
use corebluetooth_rs.Prelude.Bytes.{Bytes}

pub record Number : Type 0 where
  pub as_bool : Bool
  pub short_value : ℕ
  pub as_u16 : ℕ

pub record NsString : Type 0 where
  pub text : Bytes
  pub utf8 : Option Bytes

mutual
  pub data Object : Type 0 where
    number : Number → Object
    string : NsString → Object
    bytes : Bytes → Object
    uuid : Bytes → Object
    array : Objects → Object
    dictionary : Entries → Object
    other : Object

  -- The items of an `NSArray`.
  pub data Objects : Type 0 where
    nil : Objects
    cons : Object → Objects → Objects

  -- The keys of an `NSDictionary`, each with its object, in the order of `allKeys`.
  pub data Entries : Type 0 where
    end : Entries
    entry : Object → Object → Entries → Entries
