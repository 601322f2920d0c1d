-- ===== src/Gatt/Bus.antt =====
-- What the GATT backend gets of D-Bus. The messages come decoded; strings of bytes are texts.
use aelkey.Base.{ℤ, String, Bool, List, Option, Map}
use aelkey.Dispatcher.{DispatcherBase}

-- A property of an object: a string, a list of strings, or of another type.
pub data Property : Type 0 where
  text : String → Property
  strings : List String → Property
  other : Property

-- An object of the reply to GetManagedObjects: its path, and for each of its interfaces the name
-- and the properties.
pub record GattObject : Type 0 where
  pub path : String
  pub interfaces : List (String × List (String × Property))

-- An entry of the dictionary of a PropertiesChanged signal: its key, and the bytes where its value
-- is an array of bytes.
pub record Change : Type 0 where
  pub key : Option String
  pub bytes : Option String

pub record Message : Type 0 where
  pub path : Option String
  pub interface : Option String
  pub changes : List Change

-- The system bus. `objects` is GetManagedObjects, `flags` the property Flags of a characteristic,
-- `read_value` and `write_value` are ReadValue and WriteValue; none and false stand for a call
-- without a reply.
pub record Bus (W : Type 0) : Type 0 where
  pub get : W → W × Bool
  pub unix_fd : W → W × Option ℤ
  pub objects : W → W × Option (List GattObject)
  pub flags : W → String → W × Option (List String)
  pub add_match : W → String → W
  pub flush : W → W
  pub start_notify : W → String → W
  pub stop_notify : W → String → W
  pub read_value : W → String → W × Option String
  pub write_value : W → String → String → Bool → W × Bool
  pub read_write : W → W
  pub pop : W → W × Option Message

-- `conn` is `conn_ != nullptr`; `initialized` and `dispatcher_initialized` are the flags of the two
-- singletons.
pub record GattState (W : Type 0) : Type 0 where
  pub world : W
  pub base : DispatcherBase
  pub initialized : Bool
  pub dispatcher_initialized : Bool
  pub conn : Bool
  pub fd : ℤ
  pub gatt_paths : Map String String
