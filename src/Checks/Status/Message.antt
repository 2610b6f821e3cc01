-- ===== src/Checks/Status/Message.antt =====
-- The text of a message that is taken back.
use fanuc_driver.Report.Latest.{latest, view_laws}
use fanuc_driver.CString.{c_str, strncmp_ne}
use fanuc_driver.Checks.State.{Driver}
use fanuc_driver.Checks.Status.{report_message}
use fanuc_driver.Prelude.{◌≡◌, ◌≢◌, false, some, ◌++◌, negsuc, arith, ◌==ℤ◌, ==ℤ_iff}
use fanuc_driver.Report.{Object, create_number, create_string}
use fanuc_driver.Types.{MachineMessage}

-- Where the control has no message any more, its number being -1, and the reading's text is still that
-- of the last message, a consumer who saw that text goes on seeing it, beside the number -1.
pub message_taken_back :
    {W D : Type 0} (l v : MachineMessage) (h : Object D) (d : Driver W D)
    → l.number ≢ negsuc 0
    → v.number ≡ negsuc 0
    → strncmp_ne l.text v.text 256 ≡ false
    → latest "message_text" (h ++ d.updates) ≡ some (create_string (c_str l.text))
    → let o = h ++ (report_message v (record d { last_message = some l })).updates in
      (latest "message_number" o ≡ some (create_number (negsuc 0)))
      × (latest "message_text" o ≡ some (create_string (c_str l.text)))
unfolding report_message
message_taken_back l v h d a b c e =
    let other : (l.number ==ℤ negsuc 0) ≡ false = ground (arith, ==ℤ_iff l.number (negsuc 0)) in
    (simp (view_laws, other, b), simp (view_laws, c, e))
