-- ===== src/Bluetooth/Channel.antt =====
-- `L2capChannel` of corebluetooth/src/l2cap_channel.rs once it is open: its PSM and its peer. A
-- channel is the number of its `CBL2CAPChannel`, of which CoreBluetooth gives the two.
use corebluetooth_rs.Prelude.{
  ℕ, ◌≡◌, ◌↔◌, refl, Bool, Option, none, some, Outcome, done, panic, ◌>>=◌, unwrap, Result, ok, err,
  Option-cases, inl, inr, ◌==◌,
}
use corebluetooth_rs.Bluetooth.Bridge
use corebluetooth_rs.Bluetooth.Bridge.{Delegates, Peripheral, bridge_of}
use corebluetooth_rs.Bluetooth.Gatt.{Peer, peripheral_try_from}

pub record CbL2capChannels : Type 0 where
  pub psm : ℕ → ℕ
  pub peer : ℕ → Option Peer

-- `P`, the type of the peer, is a phantom.
pub record L2capChannel (P : Type 0) : Type 0 where
  pub channel : ℕ

module _ {P : Type 0} where
  unfoldable clone : L2capChannel P → L2capChannel P
  clone self = record { channel = self.channel }

  unfoldable eq : L2capChannel P → L2capChannel P → Bool
  eq self other = self.channel == other.channel

  unfoldable psm : CbL2capChannels → L2capChannel P → ℕ
  psm channels self = channels.psm self.channel

  -- Any `Err` of `try_into` is a panic.
  abbrev ok_or_panic : Result P Peer → Outcome P
  ok_or_panic (ok peer) = done peer
  ok_or_panic (err other) = panic

  unfoldable pub peer :
      CbL2capChannels → (Peer → Outcome (Result P Peer)) → L2capChannel P → Outcome P
  peer channels try_from self = do
    found ← unwrap (channels.peer self.channel)
    result ← try_from found
    ok_or_panic result

  unfoldable pub map : {Q : Type 0} → L2capChannel P → L2capChannel Q
  map self = record { channel = self.channel }

-- What the peer of a channel of a `Peripheral` may not be.
abbrev pub IsStranger : Delegates → Option Peer → Type 0
IsStranger s none = Unit
IsStranger s (some (Peer.central c)) = Unit
IsStranger s (some (Peer.peripheral p)) = bridge_of p s ≡ none

-- For a channel of a `Peripheral`, as `map` makes it of one of any other type, `peer` panics exactly
-- if CoreBluetooth has no peer for the channel, or one that is a central, or a peripheral without a
-- bridge as its delegate.
pub peer-map-eq-panic_iff :
    {P : Type 0}
    → (channels : CbL2capChannels) (s : Delegates) (self : L2capChannel P)
    → (peer channels (peripheral_try_from s) (map self) ≡ panic)
      ↔ IsStranger s (channels.peer self.channel)
unfolding peer map peripheral_try_from Bridge.new
peer-map-eq-panic_iff channels s self = by_peer (channels.peer self.channel)
  where
    by_peer :
        (found : Option Peer)
        → ((do p ← unwrap found; result ← peripheral_try_from s p; ok_or_panic result) ≡ panic)
          ↔ IsStranger s found
    by_peer none = (λ h. tt, λ h. refl)
    by_peer (some (Peer.central c)) = (λ h. tt, λ h. refl)
    by_peer (some (Peer.peripheral p)) = elim (Option-cases (bridge_of p s)) [
      | inl e ↦ rw e (λ h. refl, λ h. refl)
      | inr (b, e) ↦ rw e (λ h. absurd (cc), λ h. absurd (cc))
    ]
