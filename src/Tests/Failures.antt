-- ===== src/Tests/Failures.antt =====
-- A client whose connection is broken.
use sillyweb.Base.{◌≡◌, refl, [], some, negsuc, Bytes, codes, arith}
use sillyweb.Buffer.{clear_buffer}
use sillyweb.Buffer.Content.{IsValid}
use sillyweb.Client.{Client}
use sillyweb.Platform.{Platform}
use sillyweb.Transfer.{plain_transfer_send}
use sillyweb.Transfer.Failure.{plain_transfer_send-failed}
use sillyweb.Transport.{transport_send}
use sillyweb.Tests.Env.{arena, wire, guest, filled}

abbrev broken : Platform
broken = record (wire (λ t. t)) { send = λ sock text w. (negsuc 0, w) }

abbrev cut_off : Client
cut_off = record (guest []) { outputbuffer = filled (codes "page") }

page-IsValid : IsValid cut_off.outputbuffer
page-IsValid = record { sized = refl; fits = omega arith }

send_fails :
    (transport_send broken cut_off.server.transport cut_off (codes "page") ([], [])).0 ≡ negsuc 0
unfolding transport_send
send_fails = refl

plain_transfer_send-failed_example :
    (w' : Bytes × Bytes) × (plain_transfer_send broken arena cut_off ([], [])
      ≡ some (record cut_off { outputbuffer = clear_buffer cut_off.outputbuffer }, w'))
plain_transfer_send-failed_example =
    plain_transfer_send-failed broken arena cut_off ([], []) refl page-IsValid (omega arith)
      send_fails
