-- ===== src/Cmds/Tables.antt =====
-- cmds.py: class Command, and the tables.
use Prim.Native.String.{String}
use insteonrf.Common.{ℕ, [], ◌∷◌, Bool, true, false, nat_eq}
use insteonrf.Common.Dict.{Dict}

-- an entry: its label, the names that its second byte selects, and whether the second byte is
-- printed as a number of responders
pub record Entry : Type 0 where
  pub label : String
  pub sub : Dict ℕ String
  pub report : Bool

abbrev pub Table : Type 0
Table = Dict ℕ Entry

abbrev pub plain : String → Entry
plain label = record { label = label; sub = []; report = false }

abbrev pub with_sub : String → Dict ℕ String → Entry
with_sub label sub = record { label = label; sub = sub; report = false }

abbrev pub with_report : String → Entry
with_report label = record { label = label; sub = []; report = true }

pub data Command : Type 0 where
  assign_to_group delete_from_group product_data_request enter_link_mode enter_unlink_mode
        get_engine_version ping id_request on fast_on off fast_off bright_one_step dim_one_step
        start_manual_change stop_manual_change status_request get_operating_flags
        set_operating_flags instant_change manually_turned_off manually_turned_on
        remote_set_button_tap set_status set_msb poke peek on_at_rate off_at_rate beep :
      Command

unfoldable pub command_int : Command → ℕ
command_int assign_to_group = 0x01
command_int delete_from_group = 0x02
command_int product_data_request = 0x03
command_int enter_link_mode = 0x09
command_int enter_unlink_mode = 0x0A
command_int get_engine_version = 0x0D
command_int ping = 0x0F
command_int id_request = 0x10
command_int on = 0x11
command_int fast_on = 0x12
command_int off = 0x13
command_int fast_off = 0x14
command_int bright_one_step = 0x15
command_int dim_one_step = 0x16
command_int start_manual_change = 0x17
command_int stop_manual_change = 0x18
command_int status_request = 0x19
command_int get_operating_flags = 0x1F
command_int set_operating_flags = 0x20
command_int instant_change = 0x21
command_int manually_turned_off = 0x22
command_int manually_turned_on = 0x23
command_int remote_set_button_tap = 0x25
command_int set_status = 0x27
command_int set_msb = 0x28
command_int poke = 0x29
command_int peek = 0x2B
command_int on_at_rate = 0x2E
command_int off_at_rate = 0x2F
command_int beep = 0x30

-- `cmd in BENIGN_COMMANDS`
unfoldable pub is_benign : Command → Bool
is_benign get_engine_version = true
is_benign ping = true
is_benign id_request = true
is_benign status_request = true
is_benign _ = false

abbrev pub std_cmds : Table
std_cmds =
    (0x01, plain "Assign to Group")
    ∷ (0x02, plain "Delete from Group")
    ∷ (
      0x03,
      with_sub "Product Data Request"
          ((0x00, "Product Data") ∷ (0x01, "FX Username") ∷ (0x02, "Device Text String") ∷ []),
    )
    ∷ (0x09, plain "Enter Link Mode")
    ∷ (0x0A, plain "Enter Unlink Mode")
    ∷ (0x0D, plain "Get Insteon Engine Version")
    ∷ (0x0F, plain "Ping")
    ∷ (0x10, plain "ID Request")
    ∷ (0x11, plain "On")
    ∷ (0x12, plain "Fast On")
    ∷ (0x13, plain "Off")
    ∷ (0x14, plain "Fast Off")
    ∷ (0x15, plain "Bright One Step")
    ∷ (0x16, plain "Dim One Step")
    ∷ (0x17, with_sub "Start Manual Change" ((0x00, "Dim") ∷ (0x01, "Bright") ∷ []))
    ∷ (0x18, plain "Stop Manual Change")
    ∷ (0x19, plain "Status Request")
    ∷ (0x1F, plain "Get Operating Flags")
    ∷ (
      0x20,
      with_sub "Set Operating Flags" (
          (0x00, "Program Lock On")
          ∷ (0x01, "Program Lock Off")
          ∷ (0x02, "LED On")
          ∷ (0x03, "LED Off")
          ∷ (0x04, "Beeper On")
          ∷ (0x05, "Beeper Off")
          ∷ (0x06, "Stay Awake On")
          ∷ (0x07, "Stay Awake Off")
          ∷ (0x08, "Listen Only On")
          ∷ (0x09, "Listen Only Off")
          ∷ (0x0A, "No I'm Alive On")
          ∷ (0x0B, "No I'm Alive Off")
          ∷ []),
    )
    ∷ (0x21, plain "Light Instant Change")
    ∷ (0x22, plain "Light Manually Turned Off")
    ∷ (0x23, plain "Light Manually Turned On")
    ∷ (0x25, with_sub "Remote Set Button Tap" ((0x01, "1 Tap") ∷ (0x02, "2 Taps") ∷ []))
    ∷ (0x27, plain "Light Set Status")
    ∷ (0x28, plain "Set MSB for Peek/Poke")
    ∷ (0x29, plain "Poke")
    ∷ (0x2B, plain "Peek")
    ∷ (0x2E, plain "Light On at Rate")
    ∷ (0x2F, plain "Light Off at Rate")
    ∷ (0x30, plain "Beep")
    ∷ (0x45, plain "Output ON (EZIO)")
    ∷ (0x46, plain "Output OFF (EZIO)")
    ∷ (0x48, plain "Write Output Port (EZIO)")
    ∷ (0x49, plain "Read Output Port (EZIO)")
    ∷ (0x4A, plain "Get Sensor Value (EZIO)")
    ∷ (0x4B, plain "Set Sensor 1 OFF->ON Alarm")
    ∷ (0x4C, plain "Set Sensor 1 ON->OFF Alarm")
    ∷ (0x4D, plain "Write Configuration Port (EZIO)")
    ∷ (0x4E, plain "Read Configuration Port (EZIO)")
    ∷ (0x4F, plain "EZIO Control")
    ∷ (0x80, plain "Reserved")
    ∷ (0x81, plain "Assign to Companion Group")
    ∷ []

abbrev pub ext_cmds : Table
ext_cmds =
    (
      0x03,
      with_sub "Data Response" (
          (0x00, "Product Data")
          ∷ (0x01, "FX Username")
          ∷ (0x02, "Device Text String")
          ∷ (0x03, "Set Device Text String")
          ∷ (0x04, "Set ALL-Link Command Alias")
          ∷ (0x05, "Set ALL-Link Command Alias Extended Data")
          ∷ []),
    )
    ∷ (
      0x2A,
      with_sub "Block Data Transfer" (
          (0x00, "Transfer Failure")
          ∷ (0x01, "Transfer Complete")
          ∷ (0x02, "Transfer Complete")
          ∷ (0x03, "Transfer Complete")
          ∷ (0x04, "Transfer Complete")
          ∷ (0x05, "Transfer Complete")
          ∷ (0x06, "Transfer Complete")
          ∷ (0x07, "Transfer Complete")
          ∷ (0x08, "Transfer Complete")
          ∷ (0x09, "Transfer Complete")
          ∷ (0x0A, "Transfer Complete")
          ∷ (0x0B, "Transfer Complete")
          ∷ (0x0C, "Transfer Complete")
          ∷ (0x0D, "Transfer Continues")
          ∷ (0xFF, "Request Block Data Transfer")
          ∷ []),
    )
    ∷ (0x2E, plain "Extended Set/Get")
    ∷ (0x2F, plain "Read/Write ALL-Link Database")
    ∷ (0x30, plain "Trigger ALL-Link Command")
    ∷ (0x4B, plain "I/O Set Sensor Normal")
    ∷ (0x4C, plain "I/O Alarm Data Response")
    ∷ (0xF0, plain "FX User-specific Command")
    ∷ (0xF1, plain "FX User-specific Command")
    ∷ (0xF2, plain "FX User-specific Command")
    ∷ (0xF3, plain "FX User-specific Command")
    ∷ (0xF4, plain "FX User-specific Command")
    ∷ (0xF5, plain "FX User-specific Command")
    ∷ (0xF6, plain "FX User-specific Command")
    ∷ (0xF7, plain "FX User-specific Command")
    ∷ (0xF8, plain "FX User-specific Command")
    ∷ (0xF9, plain "FX User-specific Command")
    ∷ (0xFA, plain "FX User-specific Command")
    ∷ (0xFB, plain "FX User-specific Command")
    ∷ (0xFC, plain "FX User-specific Command")
    ∷ (0xFD, plain "FX User-specific Command")
    ∷ (0xFE, plain "FX User-specific Command")
    ∷ (0xFF, plain "FX User-specific Command")
    ∷ []

abbrev pub bcast_std_cmds : Table
bcast_std_cmds =
    (0x01, plain "Set Button Pressed (Responder)")
    ∷ (0x02, plain "Set Button Pressed (Controller)")
    ∷ (0x03, with_sub "Test Powerline Phase" ((0x00, "Phase A") ∷ (0x01, "Phase B") ∷ []))
    ∷ (0x04, plain "Heartbeat")
    ∷ (0x06, with_report "ALL-Link Cleanup Status Report")
    ∷ (0x11, plain "On")
    ∷ (0x12, plain "Fast On")
    ∷ (0x13, plain "Off")
    ∷ (0x14, plain "Fast Off")
    ∷ (0x15, plain "Bright One Step")
    ∷ (0x16, plain "Dim One Step")
    ∷ (0x17, with_sub "Start Manual Change" ((0x00, "Dim") ∷ (0x01, "Bright") ∷ []))
    ∷ (0x18, plain "Stop Manual Change")
    ∷ (0x27, plain "Device Status Changed")
    ∷ (0x49, plain "SALad Debug Report")
    ∷ []

abbrev pub bcast_ext_cmds : Table
bcast_ext_cmds = []
