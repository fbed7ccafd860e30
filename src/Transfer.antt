-- ===== src/Transfer.antt =====
-- transfer.c: the ways to move a body between a file and a client. `none` for a result is an access
-- outside a block or through NULL. The results of `send` and `recv`, which are not always
-- initialised, are read by no caller and are left out.
pub mod Pump
pub mod Delivery
pub mod Failure
use sillyweb.Base.{
  ℕ, zero, suc, ◌+◌, ◌-◌, ◌%◌, ◌^◌, Bool, true, false, not, ◌&&◌, ◌==◌, [], ◌∷◌, Option, none, some,
  length, take, min, ltb, leb, if◌then◌else◌, Bytes, codes, decimal, ℤ, pos, negsuc, is_positive,
  is_nonzero, to_size,
}
use sillyweb.Memory.{Allocator, block}
use sillyweb.Buffer.{Buffer, append_buffer, ltrim_buffer}
use sillyweb.Headers.{add_header}
use sillyweb.Platform.{Platform, Received}
use sillyweb.Service.{Transfer, plain, chunked, gzip}
use sillyweb.Transport.{transport_send, transport_recv}
use sillyweb.Client.{Client}

abbrev pub network_block_size : ℕ
network_block_size = 512

-- "%d" of a `long`: its low 32 bits, as a signed number.
abbrev low_bits : ℤ → ℕ
low_bits (pos n) = n % 2 ^ 32
low_bits (negsuc n) = 2 ^ 32 - suc (n % 2 ^ 32)

unfoldable pub int_text : ℤ → Bytes
int_text z =
    if ltb (low_bits z) (2 ^ 31) then decimal (low_bits z) else b'-' ∷ decimal (2 ^ 32 - low_bits z)

-- `NETWORK_BLOCK_SIZE - len` as an `int` that is handed over as a `size_t`.
abbrev pub room : ℕ → ℕ
room len =
    if leb len network_block_size
    then network_block_size - len
    else 2 ^ 64 - (len - network_block_size)

-- What follows a call that gives bytes in an array of 512: they are appended, unless it gave 0.
-- More bytes than the array holds, or a length of -1, are an access outside of it.
unfoldable pub append_received : Allocator → Buffer → Received → Option Buffer
append_received mem b r =
    if leb (length r.bytes) network_block_size
    then elim (append_buffer mem b r.bytes (to_size r.count)) [
      | none ↦ none
      | some (b', _) ↦ some b'
    ]
    else none

module _ (os : Platform) (mem : Allocator) where
  open os use {World}

  -- The first block of `plain_transfer_send`: the file is read into the output buffer.
  unfoldable pub pump_in : Client → World → Option (Client × World)
  unfolding append_received
  pump_in c w =
      if is_positive c.pump_fd && c.transfer_in_progress && not (room c.outputbuffer.len == 0)
      then (let (r, w') = os.read c.pump_fd (room c.outputbuffer.len) w in
          if is_nonzero r.count
          then elim (append_received mem c.outputbuffer r) [
            | none ↦ none
            | some b ↦ some (record c { outputbuffer = b }, w')
          ]
          else some (record c { transfer_completed = true }, w'))
      else some (c, w)

  -- The second block: at most 512 bytes of the buffer are sent.
  unfoldable pub pump_out : Client → World → Option (Client × World)
  pump_out c w =
      if c.outputbuffer.len == 0
      then some (c, w)
      else (let s = min c.outputbuffer.len network_block_size in
          let (l, w') =
            transport_send os c.server.transport c (take s (block c.outputbuffer.buffer)) w in
          if is_nonzero l
          then elim (ltrim_buffer mem c.outputbuffer (to_size l)) [
            | none ↦ none
            | some b ↦ some (record c { outputbuffer = b }, w')
          ]
          else some (record c { transfer_completed = true }, w'))

  unfoldable pub plain_transfer_send : Client → World → Option (Client × World)
  unfolding pump_in pump_out
  plain_transfer_send c w = elim (pump_in c w) [ none ↦ none | some (c', w') ↦ pump_out c' w' ]

  -- The tail of `plain_transfer_recv`: `write` gets the address of the structure, and it is the
  -- output buffer that is trimmed.
  unfoldable pub pump_store : Client → World → Option (Client × World)
  pump_store c w =
      if is_positive c.pump_fd && c.transfer_in_progress
      then (let (l, w') = os.write_struct c.pump_fd (min c.inputbuffer.len network_block_size) w in
          if is_nonzero l
          then elim (ltrim_buffer mem c.outputbuffer (to_size l)) [
            | none ↦ none
            | some b ↦ some (record c { outputbuffer = b }, w')
          ]
          else some (record c { transfer_completed = true }, w'))
      else some (c, w)

  unfoldable pub plain_transfer_recv : Client → World → Option (Client × World)
  unfolding append_received pump_store
  plain_transfer_recv c w =
      let (r, w') = transport_recv os c.server.transport c network_block_size w in
      if is_nonzero r.count
      then elim (append_received mem c.inputbuffer r) [
        | none ↦ none
        | some b ↦ pump_store (record c { inputbuffer = b }) w'
      ]
      else pump_store (record c { transfer_completed = true }) w'

  -- The descriptor stays only if it is positive.
  unfoldable pub plain_transfer_open : Client → World → Option (Client × World)
  unfolding int_text
  plain_transfer_open c w = elim c.cleanlocalpath [
    | none ↦ none
    | some path ↦
        let (fd, w') = os.open_file path w in
        if is_positive fd
        then (let (sz, w'') = os.file_size fd w' in
            let headers =
              add_header mem c.outbound_headers (codes "Transfer-Encoding") (codes "plain") in
            some (
              record c {
                pump_fd = fd;
                outbound_headers = add_header mem headers (codes "Content-Length") (int_text sz);
                transfer_in_progress = true;
                transfer_completed = false;
              },
              w'',
            ))
        else some (
          record c { pump_fd = pos 0; transfer_in_progress = false; transfer_completed = false },
          w',
        )
  ]

  -- A descriptor of -1 passes for one, and 1 is taken in its place.
  unfoldable pub chunked_transfer_open : Client → World → Option (Client × World)
  chunked_transfer_open c w = elim c.cleanlocalpath [
    | none ↦ none
    | some path ↦
        let (fd, w') = os.open_file path w in
        let headers =
          add_header mem c.outbound_headers (codes "Transfer-Encoding") (codes "chunked") in
        if is_nonzero fd
        then some (
          record c { outbound_headers = headers; pump_fd = pos 1; transfer_in_progress = true },
          w',
        )
        else some (record c { outbound_headers = headers; pump_fd = fd }, w')
  ]

  unfoldable pub gzip_transfer_open : Client → World → Option (Client × World)
  gzip_transfer_open c w = elim c.cleanlocalpath [
    | none ↦ none
    | some path ↦
        let (fd, w') = os.open_file path w in
        let headers =
          add_header mem c.outbound_headers (codes "Transfer-Encoding") (codes "gzip") in
        if is_nonzero fd
        then some
            (record c { outbound_headers = headers; pump_fd = fd; transfer_in_progress = true }, w')
        else some (record c { outbound_headers = headers; pump_fd = fd }, w')
  ]

module _ (os : Platform) where
  open os use {World}

  close_pump : Client → World → World
  close_pump c w = if is_nonzero c.pump_fd then os.close c.pump_fd w else w

  unfoldable pub plain_transfer_close : Client → World → Client × World
  unfolding close_pump
  plain_transfer_close c w = (
    record c { pump_fd = pos 0; transfer_in_progress = false; transfer_completed = false },
    close_pump c w,
  )

  -- The transfer counts as one in progress from here on.
  unfoldable pub gzip_transfer_close : Client → World → Client × World
  unfolding close_pump
  gzip_transfer_close c w =
      (record c { pump_fd = pos 0; transfer_in_progress = true }, close_pump c w)

  unfoldable pub chunked_transfer_close : Client → World → Client × World
  unfolding close_pump
  chunked_transfer_close c w =
      (record c { pump_fd = pos 0; transfer_in_progress = true }, close_pump c w)

-- This function and `chunked_transfer_close` stand in no entry of the table.
module _ (os : Platform) (mem : Allocator) where
  open os use {World}

  unfoldable pub chunked_transfer_recv : Client → World → Option (Client × World)
  unfolding append_received chunked_transfer_close
  chunked_transfer_recv c w =
      let (r, w') = transport_recv os c.server.transport c network_block_size w in
      if is_positive r.count
      then elim (append_received mem c.inputbuffer r) [
        | none ↦ none
        | some b ↦ some (record c { inputbuffer = b }, w')
      ]
      else some (chunked_transfer_close os c w')

-- The table `SERVER_TRANSFER_METHODS`: the entry "chunked" has the functions of "gzip" but for
-- `open` and `send`. The `send` of both, and the `recv` of "gzip", change nothing.
module _ (os : Platform) (mem : Allocator) where
  open os use {World}

  unfoldable pub transfer_open : Transfer → Client → World → Option (Client × World)
  unfolding plain_transfer_open chunked_transfer_open gzip_transfer_open
  transfer_open plain c w = plain_transfer_open os mem c w
  transfer_open chunked c w = chunked_transfer_open os mem c w
  transfer_open gzip c w = gzip_transfer_open os mem c w

  unfoldable pub transfer_send : Transfer → Client → World → Option (Client × World)
  unfolding plain_transfer_send
  transfer_send plain c w = plain_transfer_send os mem c w
  transfer_send chunked c w = some (c, w)
  transfer_send gzip c w = some (c, w)

  unfoldable pub transfer_recv : Transfer → Client → World → Option (Client × World)
  unfolding plain_transfer_recv
  transfer_recv plain c w = plain_transfer_recv os mem c w
  transfer_recv chunked c w = some (c, w)
  transfer_recv gzip c w = some (c, w)

module _ (os : Platform) where
  open os use {World}

  unfoldable pub transfer_close : Transfer → Client → World → Client × World
  unfolding plain_transfer_close gzip_transfer_close
  transfer_close plain c w = plain_transfer_close os c w
  transfer_close chunked c w = gzip_transfer_close os c w
  transfer_close gzip c w = gzip_transfer_close os c w
