-- ===== src/State/Code.antt =====
-- The return codes of c/include/bpclient.h. `BP_OK` is 0.
use cmee1y1_clients.Base.{ℤ, pos, negsuc}

abbrev pub bp_ok : ℤ
bp_ok = pos 0

abbrev pub generic : ℤ
generic = negsuc 0

abbrev pub send_request : ℤ
send_request = negsuc 199

abbrev pub recv_answer : ℤ
recv_answer = negsuc 200

abbrev pub null_arg : ℤ
null_arg = negsuc 299

abbrev pub pending : ℤ
pending = negsuc 300

abbrev pub not_open : ℤ
not_open = negsuc 302

abbrev pub param_range : ℤ
param_range = negsuc 304

abbrev pub slot_too_large : ℤ
slot_too_large = negsuc 310

abbrev pub cip_status : ℤ
cip_status = negsuc 399

abbrev pub client_open : ℤ
client_open = negsuc 101801

abbrev pub no_free_slot : ℤ
no_free_slot = negsuc 103000

-- Not a C `int`: the outcome of a run that is cut off, so that no code of the program is confused with
-- it. A run with enough fuel does not have it.
abbrev pub no_return : ℤ
no_return = pos 2147483648
