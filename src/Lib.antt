-- ===== src/Lib.antt =====
-- Verification of corebluetooth-rs: a safe Rust wrapper around Apple's CoreBluetooth
-- (corebluetooth), an asynchronous crate on top of it (corebluetooth-async), and an executor for
-- dispatch queues that both run on (dispatch-executor).
--
-- The parts. The crate corebluetooth turns method calls into messages to Objective-C objects, and
-- what CoreBluetooth hands back into Rust values: UUIDs (btuuid.rs, util.rs), errors (error.rs)
-- and advertisements (advertisement_data.rs). The crate corebluetooth-async implements the
-- delegate traits of corebluetooth: a request sends a message through corebluetooth and leaves
-- the sender of a oneshot channel in a map of the delegate (or subscribes to a broadcast channel),
-- a callback takes the sender out and sends the result, and the future of the request polls the
-- receiver. All of it runs on one serial dispatch queue, so a history is a list of callbacks and
-- requests.
--
-- Prelude: Boolean tests, lists measured by native numbers, functions that return or panic
-- (Outcome), Result, fixed-width byte conversions (Bytes) and std's HashMap (HashMap).
--
-- Uuid: corebluetooth/src/btuuid.rs. Uuid.Ext has its functions, from_u16 to as_bluetooth_bytes,
-- under their names, with the shifts and casts of u128 written out modulo 2 ^ 128 and 2 ^ 32;
-- Uuid.Assigned has the constants of services, characteristics and descriptors as tables of names
-- and numbers. The crate uuid is the parameter UuidCrate (Uuid.Crate).
--
-- Error: corebluetooth/src/error.rs (Error.Sync, Error.Display) and
-- corebluetooth-async/src/error.rs (Error.Async). The constants of CBError and CBATTError that
-- the code matches on are constructors; how a code is read and a number is printed are parameters.
--
-- Bluetooth: the crate corebluetooth. Bluetooth.Messages lists the messages to CoreBluetooth;
-- Bluetooth.Peripheral and Bluetooth.Central are the methods of Peripheral and CentralManager
-- (peripheral.rs, central_manager.rs) that send one, Bluetooth.Options the dictionaries of options
-- with ConnectPeripheralOptions::to_dictionary, Bluetooth.Btuuid is to_cbuuid of util.rs with the
-- crate btuuid as a parameter, Bluetooth.Advertisement is AdvertisementData::from_nsdictionary
-- over the objects of Bluetooth.Foundation. Bluetooth.Bridge and Bluetooth.CentralBridge are the
-- methods of PeripheralDelegateBridge and CentralManagerDelegateBridge, from what CoreBluetooth
-- calls to what the delegate traits are called with, with Peripheral::init and Peripheral::new;
-- Bluetooth.L2cap is L2capChannel::new of l2cap_channel.rs, Bluetooth.Channel its
-- other methods, Bluetooth.Attributes what descriptor.rs reads of a UUID and a value,
-- Bluetooth.Gatt what characteristic.rs, service.rs, descriptor.rs and central.rs wrap, and
-- Bluetooth.Manager the rest of CentralManager: where it runs, the peripherals that it retrieves,
-- and to_system_time.
--
-- Async: the crate corebluetooth-async. A channel is a number, and a call on it an entry of a
-- trace (Async.Trace, with broadcast and watch of util.rs); what polling a oneshot receiver gives
-- is the parameter OneshotCrate (Async.Crate), and a broadcast receiver BroadcastCrate
-- (Async.Broadcast). Async.Oneshot has the two operations on a map of
-- senders, Async.RefCell is std's RefCell with its borrows counted. Async.Peripheral models
-- peripheral.rs: State is PeripheralAsyncDelegate, Callbacks its PeripheralDelegate methods,
-- Requests its other methods and those of PeripheralAsync up to their await, Run any history of
-- the two; Slots says, apart from the code, which callback answers which request. Async.Central
-- does the same for central_manager.rs; Connect has the futures of connect_with_options, with the
-- guard of util.rs (Async.Guard), and of cancel_peripheral_connection. Async.Peripheral.Mailbox is
-- an abstract specification of the pending requests of a peripheral, apart from the code, and
-- Observed reads its state off that of the delegate; Topics says which callback is sent through
-- which broadcast channel, and Values what is sent through those of the characteristics. Async.Start
-- creates the manager and wraps a peripheral, and Async.Asked has the methods of PeripheralAsync with
-- the delegate that they look up.
--
-- Async.System puts the two crates together: the bridges of corebluetooth with the delegates of
-- corebluetooth-async in them, for any number of peripherals and one manager. Heard says which
-- callback of a delegate a method of a bridge comes to, Step is one event, and Split and Manager
-- say what an event means for one peripheral and for the manager. CoreBluetooth keeps a delegate
-- weakly: the histories are those in which the program holds its peripherals.
--
-- Dispatch: dispatch-executor/src/lib.rs. Handle (with Hash) and Task, Executor with the closures
-- that it gives to async_task, which submit a task to its queue, and in Attr the builder of queue
-- attributes with DispatchQoS of corebluetooth/src/dispatch.rs; the attributes of a queue are those
-- of the parameter Dispatch2.
--
-- Objects of CoreBluetooth are known by their identity, a number, and so are peripherals by their
-- identifier. An i16 is the number of its 16 bits, and an f32 that of its 32 bits. Loops are structural
-- recursion; no fuel is used. A value that the code reads of CoreBluetooth or of a channel during a callback
-- (a characteristic's value, the number of receivers, the state of a peripheral) is an argument of
-- the model's function, and the theorems hold for all of them.
--
-- Not modelled: getters that only read one property of CoreBluetooth, Debug, the marker traits, the
-- streams of L2CAP channels, how async_task polls a future and libdispatch runs a block, a
-- broadcast receiver after its first message, and the examples: they are glue to Objective-C, third-party
-- code, or input and output.
pub mod Prelude
pub mod Uuid
pub mod Error
pub mod Bluetooth
pub mod Async
pub mod Dispatch
mod Tests
