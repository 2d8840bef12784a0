-- ===== src/Dispatch/Attr.antt =====
-- `DispatchQueueAttrBuilder` of dispatch-executor/src/lib.rs and `DispatchQoS` of
-- corebluetooth/src/dispatch.rs. The attributes of a queue are those of the crate dispatch2, which
-- is a parameter: its functions, and what a queue made with an attribute has, by its documentation.
use corebluetooth_rs.Prelude.{ℕ, ◌≡◌, ◌∙◌, Bool, true, Option, none, some}

-- An i32 is the number of its 32 bits; a class and a frequency are the numbers of their cases.
pub record Dispatch2 : Type 1 where
  pub Attr : Type 0
  pub concurrent : Option Attr
  pub with_autorelease_frequency : Option Attr → ℕ → Attr
  pub with_qos_class : Option Attr → ℕ → ℕ → Attr
  -- what a queue made with the attribute has
  pub is_serial : Option Attr → Bool
  pub frequency : Option Attr → ℕ
  pub qos_class : Option Attr → ℕ × ℕ
  pub serial_none : is_serial none ≡ true
  pub serial_frequency :
      (a : Option Attr) (f : ℕ) → is_serial (some (with_autorelease_frequency a f)) ≡ is_serial a
  pub serial_qos :
      (a : Option Attr) (c p : ℕ) → is_serial (some (with_qos_class a c p)) ≡ is_serial a
  pub frequency_set :
      (a : Option Attr) (f : ℕ) → frequency (some (with_autorelease_frequency a f)) ≡ f
  pub frequency_kept :
      (a : Option Attr) (c p : ℕ) → frequency (some (with_qos_class a c p)) ≡ frequency a
  pub qos_set : (a : Option Attr) (c p : ℕ) → qos_class (some (with_qos_class a c p)) ≡ (c, p)
  pub qos_kept :
      (a : Option Attr) (f : ℕ) → qos_class (some (with_autorelease_frequency a f)) ≡ qos_class a

-- `DispatchQoS` of corebluetooth. (`Default` takes the class `Unspecified`, the number 0.)
pub record DispatchQos : Type 0 where
  pub class : ℕ
  pub relative_priority : ℕ

unfoldable default_qos : DispatchQos
default_qos = record { class = 0; relative_priority = 0 }

module _ (dispatch2 : Dispatch2) where
  pub record DispatchQueueAttrBuilder : Type 0 where
    pub attr : Option dispatch2.Attr

  unfoldable pub serial : DispatchQueueAttrBuilder
  serial = record { attr = none }

  unfoldable pub concurrent : DispatchQueueAttrBuilder
  concurrent = record { attr = dispatch2.concurrent }

  unfoldable pub with_autorelease_frequency :
      ℕ → DispatchQueueAttrBuilder → DispatchQueueAttrBuilder
  with_autorelease_frequency frequency self = record {
    attr = some (dispatch2.with_autorelease_frequency self.attr frequency);
  }

  unfoldable pub with_qos_class : ℕ → ℕ → DispatchQueueAttrBuilder → DispatchQueueAttrBuilder
  with_qos_class qos_class relative_priority self = record {
    attr = some (dispatch2.with_qos_class self.attr qos_class relative_priority);
  }

  unfoldable build : DispatchQueueAttrBuilder → Option dispatch2.Attr
  build self = self.attr

  -- `work_item` is the number of `DispatchAutoReleaseFrequency::WORK_ITEM`.
  unfoldable pub to_attr : ℕ → DispatchQos → Option dispatch2.Attr
  unfolding serial with_autorelease_frequency with_qos_class build
  to_attr work_item self = build (
      with_qos_class self.class self.relative_priority
        (with_autorelease_frequency work_item serial))

  -- A queue that is made for a quality of service is serial, so that it runs one block at a time,
  -- releases its objects after each block, and has that class and that relative priority.
  to_attr_lem :
      (work_item : ℕ) (qos : DispatchQos)
      → (dispatch2.is_serial (to_attr work_item qos) ≡ true)
        × (dispatch2.frequency (to_attr work_item qos) ≡ work_item)
        × (dispatch2.qos_class (to_attr work_item qos) ≡ (qos.class, qos.relative_priority))
  unfolding to_attr serial with_autorelease_frequency with_qos_class build
  to_attr_lem work_item qos = (
    dispatch2.serial_qos _ _ _ ∙ dispatch2.serial_frequency _ _ ∙ dispatch2.serial_none,
    dispatch2.frequency_kept _ _ _ ∙ dispatch2.frequency_set _ _,
    dispatch2.qos_set _ _ _,
  )
