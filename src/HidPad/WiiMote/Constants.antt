-- ===== src/HidPad/WiiMote/Constants.antt =====
-- The constants of src/backend/hidpad/wiimote.h that the driver and the class use: commands, reports,
-- addresses, and masks of the state, the LEDs and the buttons.
use mfi_wrapper.Prelude.{ℕ}

abbrev pub wm_set_report : ℕ
wm_set_report = 0x50

abbrev pub bt_output : ℕ
bt_output = 0x02

abbrev pub cmd_led : ℕ
cmd_led = 0x11

abbrev pub cmd_report_type : ℕ
cmd_report_type = 0x12

abbrev pub cmd_ctrl_status : ℕ
cmd_ctrl_status = 0x15

abbrev pub cmd_write_data : ℕ
cmd_write_data = 0x16

abbrev pub cmd_read_data : ℕ
cmd_read_data = 0x17

abbrev pub rpt_ctrl_status : ℕ
rpt_ctrl_status = 0x20

abbrev pub rpt_read : ℕ
rpt_read = 0x21

abbrev pub rpt_btn : ℕ
rpt_btn = 0x30

abbrev pub rpt_btn_exp : ℕ
rpt_btn_exp = 0x34

abbrev pub exp_mem_calibr : ℕ
exp_mem_calibr = 0x04A40020

abbrev pub status_attachment : ℕ
status_attachment = 0x02

abbrev pub state_handshake : ℕ
state_handshake = 0x0002

abbrev pub state_handshake_complete : ℕ
state_handshake_complete = 0x0004

abbrev pub state_connected : ℕ
state_connected = 0x0008

abbrev pub state_exp : ℕ
state_exp = 0x0040

abbrev pub led_none : ℕ
led_none = 0x00

abbrev pub led_1 : ℕ
led_1 = 0x10

abbrev pub led_2 : ℕ
led_2 = 0x20

abbrev pub led_3 : ℕ
led_3 = 0x40

abbrev pub led_4 : ℕ
led_4 = 0x80

abbrev pub button_two : ℕ
button_two = 0x0001

abbrev pub button_one : ℕ
button_one = 0x0002

abbrev pub button_b : ℕ
button_b = 0x0004

abbrev pub button_a : ℕ
button_a = 0x0008

abbrev pub button_minus : ℕ
button_minus = 0x0010

abbrev pub button_left : ℕ
button_left = 0x0100

abbrev pub button_right : ℕ
button_right = 0x0200

abbrev pub button_down : ℕ
button_down = 0x0400

abbrev pub button_up : ℕ
button_up = 0x0800

abbrev pub button_plus : ℕ
button_plus = 0x1000

abbrev pub button_all : ℕ
button_all = 0x1F9F

abbrev pub classic_up : ℕ
classic_up = 0x0001

abbrev pub classic_left : ℕ
classic_left = 0x0002

abbrev pub classic_zr : ℕ
classic_zr = 0x0004

abbrev pub classic_x : ℕ
classic_x = 0x0008

abbrev pub classic_a : ℕ
classic_a = 0x0010

abbrev pub classic_y : ℕ
classic_y = 0x0020

abbrev pub classic_b : ℕ
classic_b = 0x0040

abbrev pub classic_zl : ℕ
classic_zl = 0x0080

abbrev pub classic_full_r : ℕ
classic_full_r = 0x0200

abbrev pub classic_plus : ℕ
classic_plus = 0x0400

abbrev pub classic_minus : ℕ
classic_minus = 0x1000

abbrev pub classic_full_l : ℕ
classic_full_l = 0x2000

abbrev pub classic_down : ℕ
classic_down = 0x4000

abbrev pub classic_right : ℕ
classic_right = 0x8000

abbrev pub classic_all : ℕ
classic_all = 0xFEFF
