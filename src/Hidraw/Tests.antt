-- ===== src/Hidraw/Tests.antt =====
-- Runs of the hidraw parts. The world counts the calls that change it.
use aelkey.Device.Enumerate.{IsFirstFit}
use aelkey.Hidraw.Match.{FitsAt}
use aelkey.Base.{
  ℕ, ℤ, pos, negsuc, suc, String, false, List, [], ◌∷◌, Option, none, some, find, insert, erase,
  prefix, size, string_key, int_key, ◌≡◌, refl, minus_one,
}
use aelkey.Dispatcher.{Epoll, empty_base}
use aelkey.Device.Decl.{InputDecl, default_input}
use aelkey.Device.Helpers.{Match}
use aelkey.Device.App.{App}
use aelkey.Device.History.{start}
use aelkey.Hidraw.Defs.{HidrawState, Files, open_device, remove_device}
use aelkey.Hidraw.Match.{
  HidrawInfo, HidrawNode, get_interface_num, hidraw_matcher, hidraw_match, hidraw_match-Fits,
}
use aelkey.Hidraw.Reports.{HidIo, open_fd, hid_read_input_report, hid_send_output_report}

abbrev no_patterns : String → Option (String → Match)
no_patterns s = none

abbrev second : String → ℤ
second s = pos 1

abbrev receiver : InputDecl
receiver = record default_input {
  id = "receiver";
  type = "hidraw";
  vendor = pos 0xc077;
  interface = pos 1;
}

-- The vendor is negative as a 16-bit number.
abbrev found : HidrawInfo
found = record {
  bustype = pos 3;
  vendor = negsuc 0x3f88;
  product = pos 7;
  name = some "Receiver";
  phys = none;
  uniq = none;
  interface_num = some "01";
}

abbrev hidraw1 : String
hidraw1 = "/dev/hidraw1"

abbrev nodes : List HidrawNode
nodes =
    record { devnode = some "/dev/hidraw0"; info = none }
    ∷ record { devnode = some hidraw1; info = some found }
    ∷ []

matched : hidraw_match no_patterns second receiver nodes ≡ some hidraw1
unfolding hidraw_match hidraw_matcher get_interface_num
matched = refl

hidraw_match-Fits_example :
    (receiver.type ≡ "hidraw") × IsFirstFit (FitsAt no_patterns second receiver) nodes hidraw1
hidraw_match-Fits_example = hidraw_match-Fits no_patterns second receiver nodes hidraw1 matched

abbrev kernel : Epoll ℕ
kernel = record { add = λ w fd events. (suc w, pos 0); del = λ w fd. suc w }

abbrev files : Files ℕ
files = record {
  open_node = λ w node. (suc w, pos 4);
  close = λ w fd. suc w;
  unblock = λ w fd. suc w;
  read = λ w fd n. (suc w, pos 2, "ab");
  errno = λ w. "error";
}

abbrev closed : HidrawState ℕ
closed = record { world = 0; base = empty_base; devices = [] }

-- A device that is opened and removed leaves no entry.
removed :
    (remove_device kernel files
      (open_device kernel files closed hidraw1 receiver).0
      "receiver").devices
    ≡ []
unfolding remove_device open_device insert erase
removed = refl

abbrev io : HidIo ℕ
io = record {
  get_feature = λ w fd n id. (suc w, pos 3, "abc");
  desc_size = λ w fd. (suc w, pos 0, pos 3);
  desc = λ w fd n. (suc w, pos 0, "abcdef");
  read = λ w fd n. (suc w, pos 2, "abcdef");
  set_feature = λ w fd bytes. (suc w, minus_one);
  write = λ w fd bytes. (suc w, pos 2);
}

abbrev with_receiver : App ℕ
with_receiver = record (start 0) { input_map = ("receiver", record receiver { fd = pos 4 }) ∷ [] }

two_bytes : (hid_read_input_report io with_receiver "receiver").1 ≡ "ab"
unfolding hid_read_input_report open_fd find prefix
two_bytes = refl

short_write : (hid_send_output_report io with_receiver "receiver" "abc").1 ≡ false
unfolding hid_send_output_report open_fd find size
short_write = refl
