-- ===== src/Logging.antt =====
-- native/hb_beamr/hb_logging.c: error messages to Erlang, and debug messages to the terminal.
use hyper_beam.Common.{Bool, Bytes, if◌then◌else◌, [], ◌∷◌, ◌++◌, take}
use hyper_beam.Core.Message.{
  codes, Message, drv_atom, drv_string, drv_tuple, chars, word, atom_error,
}
use hyper_beam.Core.Process.{Driver}
use hyper_beam.Helpers.Strings.{c_string, strlen}

-- What the terminal shows after a debug message: `thread` and `line` are the texts of the numbers,
-- `text` is the message with its format's arguments put in.
unfoldable pub beamr_print : Bool → Bytes → Bytes → Bytes → Bytes → Bytes → Bytes
beamr_print print file line thread text shown =
    if print
    then (shown
        ++ (codes "[DBG#"
            ++ (thread
                ++ (codes " @ "
                    ++ (file
                        ++ (codes ":" ++ (line ++ (codes "] " ++ (text ++ (13 ∷ 10 ∷ []))))))))))
    else shown

-- `erl_drv_output_term` on the port.
abbrev pub output_term : Message → Driver → Driver
output_term m d = record d { sent = d.sent ++ (m ∷ []) }

-- What `vsnprintf` leaves of a formatted text in the buffer of 256 bytes, its NUL left out.
unfoldable pub error_text : Bytes → Bytes
unfolding c_string
error_text text = take 255 (c_string text)

unfoldable pub error_message : Bytes → Message
unfolding error_text strlen
error_message text =
    let m = error_text text in
    drv_atom ∷ atom_error ∷ drv_string ∷ chars m ∷ word (strlen m) ∷ drv_tuple ∷ word 2 ∷ []

-- The text is the message with its format's arguments put in.
unfoldable pub send_error : Bytes → Driver → Driver
unfolding error_message
send_error text d = output_term (error_message text) d
