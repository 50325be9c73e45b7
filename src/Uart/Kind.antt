-- ===== src/Uart/Kind.antt =====
-- The UART protocol's numbers, greybus_protocols.h.
use greybus.Base.{ℕ}

abbrev pub send_data : ℕ
send_data = 0x02

abbrev pub receive_data : ℕ
receive_data = 0x03

abbrev pub set_line_coding : ℕ
set_line_coding = 0x04

abbrev pub set_control_line_state : ℕ
set_control_line_state = 0x05

abbrev pub send_break : ℕ
send_break = 0x06

abbrev pub serial_state : ℕ
serial_state = 0x07

abbrev pub recv_framing : ℕ
recv_framing = 0x01

abbrev pub recv_parity : ℕ
recv_parity = 0x02

abbrev pub recv_overrun : ℕ
recv_overrun = 0x04

abbrev pub recv_break : ℕ
recv_break = 0x08

abbrev pub ctrl_dtr : ℕ
ctrl_dtr = 0x01

abbrev pub ctrl_rts : ℕ
ctrl_rts = 0x02

abbrev pub ctrl_dcd : ℕ
ctrl_dcd = 0x01

abbrev pub ctrl_dsr : ℕ
ctrl_dsr = 0x02

abbrev pub ctrl_ri : ℕ
ctrl_ri = 0x04
