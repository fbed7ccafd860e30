-- ===== src/Tests/Buffers.antt =====
-- buffer.c on concrete bytes.
use sillyweb.Base.{◌≡◌, refl, length, c_str, [], ◌∷◌, none, some, codes, arith, Bool, List}
use sillyweb.Memory.{memcpy, memmove, block}
use sillyweb.Buffer.{Buffer, append_buffer, ltrim_buffer}
use sillyweb.Buffer.Content.{content, IsValid, AppendsTo, append_buffer-AppendsTo}
use sillyweb.Buffer.Queue.{Call, append, ltrim, run, queue, run-queue}
use sillyweb.Percent.{percent_decode}
use sillyweb.Percent.Buffers.{percent_encode_buffer}
use sillyweb.Percent.RoundTrip.{percent_decode-percent_encode_buffer}
use sillyweb.Tests.Env.{arena, arena-IsAmple, resize, filled}

abbrev hello : Buffer
hello = filled (codes "hello")

hello-IsValid : IsValid hello
hello-IsValid = record { sized = refl; fits = omega arith }

append_then_trim :
    elim (append_buffer arena hello (codes " world") 6) [
      | none ↦ none
      | some (b, _) ↦ ltrim_buffer arena b 4
    ]
    ≡ some (filled (codes "o world"))
unfolding append_buffer ltrim_buffer resize memcpy memmove
append_then_trim = refl

append_buffer-AppendsTo_example :
    (r : Buffer × Bool) × (append_buffer arena hello (codes " world") 3 ≡ some r)
    × AppendsTo arena hello (codes " world") 3 r
append_buffer-AppendsTo_example =
    append_buffer-AppendsTo arena hello (codes " world") 3 hello-IsValid (omega arith) (omega arith)

abbrev some_calls : List Call
some_calls = append (codes " world") ∷ ltrim 4 ∷ append (codes "!") ∷ []

run-queue_example :
    (r : Buffer) × (run arena hello some_calls ≡ some r)
    × IsValid r
    × (content r ≡ queue (content hello) some_calls)
run-queue_example = run-queue arena arena-IsAmple hello some_calls hello-IsValid (omega arith)

queue_of_calls : queue (codes "hello") some_calls ≡ codes "o world!"
unfolding queue
queue_of_calls = refl

-- An empty string, and what an earlier use of the block has left.
abbrev unused : Buffer
unused = filled (0 ∷ codes "what was there")

unused_is_empty : c_str (block unused.buffer) ≡ []
unfolding c_str
unused_is_empty = refl

percent_decode-percent_encode_buffer_example :
    (b : Buffer) × (percent_encode_buffer (filled (codes "a b%")) unused ≡ some b)
    × (length (block b.buffer) ≡ 15)
    × (b.len ≡ 15)
    × (percent_decode 0 (c_str (block b.buffer)) ≡ codes "a b%")
percent_decode-percent_encode_buffer_example =
    percent_decode-percent_encode_buffer 0 (filled (codes "a b%")) unused
      (record { sized = refl; fits = omega arith }) (omega arith) unused_is_empty (omega arith)
