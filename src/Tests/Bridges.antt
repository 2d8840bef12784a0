-- ===== src/Tests/Bridges.antt =====
-- The theorems on the delegate bridges, retrieved peripherals and L2CAP channels at concrete objects.
use corebluetooth_rs.Prelude.{◌≡◌, ◌≢◌, ◌↔◌, ◌⊎◌, map, [], ◌∷◌, none, some, panic, length}
use corebluetooth_rs.Prelude.Bytes.{Bytes, from_le_bytes}
use corebluetooth_rs.Bluetooth.Bridge.{Delegates, Attached, bridge_of}
use corebluetooth_rs.Bluetooth.Channel
use corebluetooth_rs.Bluetooth.Channel.{
  CbL2capChannels, L2capChannel, IsStranger, peer, peer-map-eq-panic_iff,
}
use corebluetooth_rs.Bluetooth.Gatt.{Peer, peripheral_try_from}
use corebluetooth_rs.Bluetooth.Manager.{Retrieval, retrieve_peripherals}
use corebluetooth_rs.Bluetooth.Retrieved.{Wrapped, retrieve_peripherals_lem}
use corebluetooth_rs.Bluetooth.L2cap
use corebluetooth_rs.Bluetooth.L2cap.{channel_of, no_fd, new-eq-panic_iff}

-- Peripheral 1 has bridge 10, and peripheral 2 a delegate of another class.
abbrev attached : Delegates
attached = (1, Attached.bridge 10) ∷ (2, Attached.foreign 20) ∷ []

abbrev minus_one : Bytes
minus_one = 255 ∷ 255 ∷ 255 ∷ 255 ∷ []

sockets_example :
    (L2cap.new (channel_of 8 minus_one minus_one) ≡ panic)
    ↔ ((minus_one ≢ minus_one) ⊎ ((length minus_one ≢ 4) ⊎ (from_le_bytes minus_one ≡ no_fd)))
sockets_example = new-eq-panic_iff 8 minus_one minus_one

-- CoreBluetooth returns the peripherals 4 and 1, of which the first has no delegate yet.
abbrev returned : Retrieval
returned = record { with_identifiers = λ ids. 4 ∷ 1 ∷ []; connected_with_services = λ services. [] }

retrieved_example :
    let (s, l) = retrieve_peripherals returned (9 ∷ []) 30 attached in
    (map (λ w. w.peripheral) l ≡ 4 ∷ 1 ∷ [])
    × Wrapped s l
    × ((bridge_of 1 attached ≡ none) ⊎ (bridge_of 1 s ≡ bridge_of 1 attached))
retrieved_example = retrieve_peripherals_lem returned (9 ∷ []) 30 attached 1

abbrev channels : CbL2capChannels
channels = record { psm = λ c. 25; peer = λ c. some (Peer.peripheral 2) }

abbrev opened : L2capChannel (Unit {0})
opened = record { channel = 8 }

peer_example :
    (peer channels (peripheral_try_from attached) (Channel.map opened) ≡ panic)
    ↔ IsStranger attached (channels.peer 8)
peer_example = peer-map-eq-panic_iff channels attached opened
