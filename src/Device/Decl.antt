-- ===== src/Device/Decl.antt =====
-- source/device_declarations.h
use aelkey.Base.{ℤ, pos, String, Bool, false, List, [], minus_one}

pub record InputDecl : Type 0 where
  pub id : String
  pub type : String
  pub vendor : ℤ
  pub product : ℤ
  pub bus : ℤ
  pub interface : ℤ
  pub name : String
  pub phys : String
  pub uniq : String
  pub grab : Bool
  pub capabilities : List (ℤ × ℤ)
  pub service : ℤ
  pub characteristic : ℤ
  pub devnode : String
  pub on_event : String
  pub on_state : String
  pub fd : ℤ

abbrev pub default_input : InputDecl
default_input = record {
  id = "";
  type = "";
  vendor = pos 0;
  product = pos 0;
  bus = pos 0;
  interface = minus_one;
  name = "";
  phys = "";
  uniq = "";
  grab = false;
  capabilities = [];
  service = pos 0;
  characteristic = pos 0;
  devnode = "";
  on_event = "";
  on_state = "";
  fd = minus_one;
}

pub record OutputDecl : Type 0 where
  pub id : String
  pub type : String
  pub vendor : ℤ
  pub product : ℤ
  pub bus : ℤ
  pub version : ℤ
  pub name : String
  pub on_haptics : String
  pub capabilities : List String

abbrev pub default_output : OutputDecl
default_output = record {
  id = "";
  type = "";
  vendor = pos 0x1234;
  product = pos 0x5678;
  bus = pos 3;
  version = pos 1;
  name = "";
  on_haptics = "";
  capabilities = [];
}
