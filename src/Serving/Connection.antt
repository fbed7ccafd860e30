-- ===== src/Serving/Connection.antt =====
-- A connection from its first bytes to its end.
use sillyweb.Base.{
  ℕ, suc, ◌+◌, ◌<◌, ◌≤◌, ◌≡◌, ap, ◌∙◌, true, [], ◌++◌, length, some, Bytes, codes, pos,
}
use sillyweb.Memory.{Allocator, IsAmple}
use sillyweb.Buffer.{Buffer}
use sillyweb.Buffer.Content.{content, IsValid}
use sillyweb.Http.{get_http_result_text}
use sillyweb.Log.Fits.{IsClock}
use sillyweb.Platform.{Platform}
use sillyweb.Service.{HttpMethod, Vhost}
use sillyweb.Client.{Client}
use sillyweb.Request.Parse.{AnyVhost}
use sillyweb.Request.Understood.{flags_of}
use sillyweb.Response.Stream.{status_line, header_block}
use sillyweb.Transfer.{network_block_size}
use sillyweb.Transfer.Delivery.{IsDelivery}
use sillyweb.Dispatch.Files.{IsOpening, size_of}
use sillyweb.Serving.{Leftovers}
use sillyweb.Serving.Asked.{IsForFile, answered, headers_after}
use sillyweb.Serving.Loop.{IsPolled, alone, service_turns, service_turns-turn}
use sillyweb.Serving.EndToEnd.{IsFinished, service_turns-delivers}
use sillyweb.Serving.Arrival.{IsArrival, IsFresh, after_recv, service_clients-receives}

module _ (os : Platform) (mem : Allocator) (ample : IsAmple mem) (clock : IsClock os)
    (rest sent pending : os.World → Bytes) (link : IsDelivery os rest sent)
    (opening : IsOpening os sent) (unreceived : IsOpening os pending)
    (polled : IsPolled os rest sent pending) (arrival : IsArrival os rest sent pending)
    (get_vhost : AnyVhost) (mess : Leftovers) where
  open os use {World}

  -- A connection is served, from the bytes of its request to its end. On a platform that opens and
  -- seeks without sending or receiving, whose `read` gives the file, whose connection takes every
  -- text whole and whose dates have at most 25 characters, where pending bytes make `poll` report
  -- the connection as readable and come with the next receiving call and with no other, where
  -- `poll` reports a connection with none pending as writable only, and while there is memory: a
  -- list of one client, of this thread and as `create_new_client` leaves it, with at least one byte
  -- and at most 512 pending, which in the input buffer are a request of HTTP/1.1 for a file, as
  -- `IsForFile` says. The first turn of `service_clients` receives them. With `n` above the number
  -- of bytes to be read of the file, after some `k ≤ n` turns more the transfer is completed and
  -- the client has got, behind what it had: the status line with the text of 200, the headers that
  -- `parse_request` left, those of the file and "Connection", an empty line, and these bytes. After
  -- the next turn no file is open and no transfer in progress, and the client is dead exactly if
  -- the flags that `parse_request` left say so.
  pub service_turns-serves :
      (poolid address n : ℕ) (c : Client) (method uri fields : Bytes) (m : HttpMethod) (v : Vhost)
      (root path type : Bytes) (fd : ℕ) (w : World)
      → IsFresh poolid c
      → 1 ≤ length (pending w)
      → length (pending w) ≤ network_block_size
      → ((b : Buffer)
          → IsValid b
          → content b ≡ pending w
          → IsForFile os get_vhost mess
              (record c { inputbuffer = b })
              method
              uri
              fields
              m
              v
              root
              path
              type
              fd
              (after_recv os c w))
      → length (rest (size_of os path fd (after_recv os c w)).1) < n
      → (b : Buffer) × (text : Bytes) × (k : ℕ) × (c₁ : Client) × (w₁ : World) × (c₂ : Client)
        × (w₂ : World) × (content b ≡ pending w)
        × (get_http_result_text 200 ≡ some text)
        × (k ≤ n)
        × (service_turns os mem get_vhost mess poolid (suc k) (alone os address c w)
            ≡ some (alone os address c₁ w₁))
        × (c₁.transfer_completed ≡ true)
        × (sent w₁
            ≡ (sent w
                ++ (status_line
                      (answered os mess
                        (record c { inputbuffer = b })
                        m
                        uri
                        fields
                        v
                        root
                        path
                        type
                        fd
                        (after_recv os c w))
                      text
                    ++ (header_block
                          (answered os mess
                            (record c { inputbuffer = b })
                            m
                            uri
                            fields
                            v
                            root
                            path
                            type
                            fd
                            (after_recv os c w)).outbound_headers
                        ++ codes "\r\n")))
              ++ rest (size_of os path fd (after_recv os c w)).1)
        × (service_turns os mem get_vhost mess poolid (suc (k + 1)) (alone os address c w)
            ≡ some (alone os address c₂ w₂))
        × IsFinished os (flags_of c (headers_after c fields)).close c₂
  service_turns-serves poolid address n c method uri fields m v root path type fd w h more fits asks
        enough =
      let (b, e, valid, all, left, quiet) =
        service_clients-receives os mem ample rest sent pending polled arrival get_vhost mess poolid
          address c w h more fits in
      let c' : Client = record c { inputbuffer = b } in
      let w' = after_recv os c w in
      let unread : pending (size_of os path fd w').1 ≡ [] =
        unreceived.size_quiet (pos (suc fd)) (os.open_file path w').1
        ∙ unreceived.open_quiet path w'
        ∙ left in
      let (text, k, c₁, w₁, c₂, w₂, is_text, le, turns, done, out, last, over) =
        service_turns-delivers os mem ample clock rest sent pending link opening polled get_vhost
          mess poolid address n c' method uri fields m v root path type fd w' h.alive h.own h.idle
          (asks b valid all) unread enough in
      let first = λ (j : ℕ).
        service_turns-turn os mem get_vhost mess poolid j (alone os address c w)
          (alone os address c' w') e in
      (
        b,
        text,
        k,
        c₁,
        w₁,
        c₂,
        w₂,
        all,
        is_text,
        le,
        first k ∙ turns,
        done,
        out
            ∙ ap
                (λ t.
                  (t
                    ++ (status_line (answered os mess c' m uri fields v root path type fd w') text
                        ++ (header_block
                              (answered os mess c' m uri fields v root path type fd
                                w').outbound_headers
                            ++ codes "\r\n")))
                  ++ rest (size_of os path fd w').1)
                quiet,
        first (k + 1) ∙ last,
        over,
      )
