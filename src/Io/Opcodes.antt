-- ===== src/Io/Opcodes.antt =====
-- runtime/desktop/src/wapi_host_io.c, "Opcodes" and the switch of `dispatch`: the operations that a
-- guest can submit, and where each one goes.
use wapi.Base.{ℕ, Bool, false, ◌||◌, List, [], ◌∷◌, ◌==◌}

abbrev pub op_nop : ℕ
op_nop = 0x00

abbrev pub op_cap_request : ℕ
op_cap_request = 0x01

abbrev pub op_role_request : ℕ
op_role_request = 0x16

abbrev pub op_role_repick : ℕ
op_role_repick = 0x17

abbrev pub op_read : ℕ
op_read = 0x02

abbrev pub op_write : ℕ
op_write = 0x03

abbrev pub op_close : ℕ
op_close = 0x05

abbrev pub op_log : ℕ
op_log = 0x07

abbrev pub op_connect : ℕ
op_connect = 0x0A

abbrev pub op_send : ℕ
op_send = 0x0C

abbrev pub op_recv : ℕ
op_recv = 0x0D

abbrev pub op_network_resolve : ℕ
op_network_resolve = 0x11

abbrev pub op_timeout : ℕ
op_timeout = 0x14

abbrev pub op_timeout_abs : ℕ
op_timeout_abs = 0x15

abbrev pub op_http_fetch : ℕ
op_http_fetch = 0x060

abbrev pub op_compress_process : ℕ
op_compress_process = 0x140

abbrev pub op_dialog_file_open : ℕ
op_dialog_file_open = 0x180

abbrev pub op_dialog_file_save : ℕ
op_dialog_file_save = 0x181

abbrev pub op_dialog_folder_open : ℕ
op_dialog_folder_open = 0x182

abbrev pub op_dialog_messagebox : ℕ
op_dialog_messagebox = 0x183

abbrev pub op_dialog_pick_color : ℕ
op_dialog_pick_color = 0x184

abbrev pub op_dialog_pick_font : ℕ
op_dialog_pick_font = 0x185

abbrev pub op_crypto_hash : ℕ
op_crypto_hash = 0x2C0

abbrev pub op_notify_show : ℕ
op_notify_show = 0x2F8

abbrev pub op_transfer_offer : ℕ
op_transfer_offer = 0x310

abbrev pub op_transfer_read : ℕ
op_transfer_read = 0x311

-- The opcodes that go to the other files of the host.
abbrev pub external_opcodes : List ℕ
external_opcodes =
    op_connect ∷ op_send ∷ op_recv ∷ op_network_resolve ∷ op_http_fetch ∷ op_compress_process
    ∷ op_dialog_file_open ∷ op_dialog_file_save ∷ op_dialog_folder_open ∷ op_dialog_messagebox
    ∷ op_dialog_pick_color ∷ op_dialog_pick_font ∷ op_crypto_hash ∷ op_notify_show
    ∷ op_transfer_offer ∷ op_transfer_read ∷ []

-- The opcodes that the switch names and sends to `op_nosys`, from `OP_OPEN` to `OP_POWER_IDLE_START`.
abbrev pub unimplemented_opcodes : List ℕ
unimplemented_opcodes =
    0x04 ∷ 0x06 ∷ 0x08 ∷ 0x09 ∷ 0x0B ∷ 0x0E ∷ 0x0F ∷ 0x10 ∷ 0x1E ∷ 0x1F ∷ 0x080 ∷ 0x081 ∷ 0x082
    ∷ 0x083 ∷ 0x092 ∷ 0x093 ∷ 0x0A0 ∷ 0x0A1 ∷ 0x0A2 ∷ 0x0A3 ∷ 0x0A4 ∷ 0x0A5 ∷ 0x0A6 ∷ 0x0B0 ∷ 0x0B1
    ∷ 0x0B2 ∷ 0x0B3 ∷ 0x0B4 ∷ 0x0B5 ∷ 0x0C0 ∷ 0x0C1 ∷ 0x0D1 ∷ 0x100 ∷ 0x101 ∷ 0x102 ∷ 0x103 ∷ 0x110
    ∷ 0x111 ∷ 0x120 ∷ 0x121 ∷ 0x122 ∷ 0x130 ∷ 0x131 ∷ 0x150 ∷ 0x2FC ∷ 0x191 ∷ 0x192 ∷ 0x193 ∷ 0x1A0
    ∷ 0x1A3 ∷ 0x1A1 ∷ 0x1A2 ∷ 0x200 ∷ 0x201 ∷ 0x202 ∷ 0x210 ∷ 0x211 ∷ 0x2A0 ∷ 0x2A1 ∷ 0x2A2 ∷ 0x2A3
    ∷ 0x2A4 ∷ 0x2B0 ∷ 0x2B1 ∷ 0x2B2 ∷ 0x2C1 ∷ 0x2C2 ∷ 0x2C3 ∷ 0x2C4 ∷ 0x2C5 ∷ 0x2C6 ∷ 0x2C7 ∷ 0x2C8
    ∷ 0x2C9 ∷ 0x2D8 ∷ 0x2D9 ∷ 0x2E8 ∷ 0x2E9 ∷ 0x2EA ∷ []

abbrev pub contains : List ℕ → ℕ → Bool
contains [] n = false
contains (x ∷ xs) n = n == x || contains xs n
