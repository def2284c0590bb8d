-- ===== src/Modbus/Transact.antt =====
-- Finding the reply in the stream: late replies to earlier requests are skipped.
use mathlib.Core.List.{append_assoc}
use ros2_wavemakers.Base.{
  ==_iff, All, List, [], arith, false, hi_byte, if◌then◌else◌, length, lo_byte, not, refl, suc,
  true, u16, zero, ℕ, ◌++◌, ◌+◌, ◌-◌, ◌<◌, ◌==◌, ◌∙◌, ◌∷◌, ◌≡◌, ◌≢◌, ◌≤◌,
}
use ros2_wavemakers.Modbus.Client.{
  Client, all_of, arrived, await_reply, finish, read_body, read_frame, recv_exact,
}
use ros2_wavemakers.Modbus.Socket.{IsStream, SocketOps}
use ros2_wavemakers.Modbus.Stream.{recv_exact-IsStream}
use ros2_wavemakers.Modbus.Wire.{Header, acceptable, frame, parse_header}

-- The seven header bytes in front of a PDU.
abbrev mbap : ℕ → ℕ → List ℕ → List ℕ
mbap tid unit pdu =
    hi_byte tid
    ∷ lo_byte tid
    ∷ 0
    ∷ 0
    ∷ hi_byte (u16 (length pdu + 1))
    ∷ lo_byte (u16 (length pdu + 1))
    ∷ unit
    ∷ []

-- A frame that a server may send.
pub record Message : Type 0 where
  pub id : ℕ
  pub unit : ℕ
  pub pdu : List ℕ

abbrev pub bytes_in : Message → List ℕ
bytes_in m = frame m.id m.unit m.pdu

abbrev pub stream_of : List Message → List ℕ
stream_of [] = []
stream_of (m ∷ ms) = bytes_in m ++ stream_of ms

pub record IsMessage (m : Message) : Type 0 where
  pub id_word : m.id < 65536
  pub some_pdu : 1 ≤ length m.pdu
  pub small_pdu : length m.pdu ≤ 253

parse_header-mbap :
    (m : Message)
    → IsMessage m
    → parse_header (mbap m.id m.unit m.pdu)
      ≡ record { rtid = m.id; proto = 0; rlen = length m.pdu + 1 }
unfolding parse_header
parse_header-mbap m v = ground arith

module _ {W : Type 0} (os : SocketOps W) where
  read_body_arrives :
      (h : Header) (c : Client W) (body : List ℕ) (w : W)
      → acceptable h ≡ true
      → recv_exact os (h.rlen - 1) (h.rlen - 1) [] c.world ≡ (all_of body, w)
      → read_body os h c ≡ (arrived h.rtid body, record c { world = w })
  unfolding read_body
  read_body_arrives h c body w a e = ground arith

  read_frame_header :
      (c : Client W) (hdr : List ℕ) (w : W)
      → recv_exact os 7 7 [] c.world ≡ (all_of hdr, w)
      → read_frame os c ≡ read_body os (parse_header hdr) (record c { world = w })
  unfolding read_frame
  read_frame_header c hdr w e = ground arith

  -- Reading one whole frame off the stream.
  read_frame-Message :
      (s : IsStream os) (m : Message) (rest : List ℕ) (c : Client W)
      → IsMessage m
      → s.incoming c.world ≡ bytes_in m ++ rest
      → (w : W) × (read_frame os c ≡ (arrived m.id m.pdu, record c { world = w }))
        × (s.incoming w ≡ rest)
  read_frame-Message s m rest c v i =
      let (w1, e1, i1) =
        recv_exact-IsStream os s 7 7 [] (mbap m.id m.unit m.pdu) (m.pdu ++ rest) c.world
          (omega arith) refl (unfold frame in i) in
      let (w2, e2, i2) =
        recv_exact-IsStream os s (length m.pdu + 1 - 1) (length m.pdu + 1 - 1) [] m.pdu rest w1
          (omega arith) (omega arith) i1 in
      let c1 = record c { world = w1 } in
      let fine : acceptable (record { rtid = m.id; proto = 0; rlen = length m.pdu + 1 }) ≡ true =
        unfold acceptable in ground (arith, v.some_pdu, v.small_pdu) in
      (
        w2,
        rw (read_frame_header c (mbap m.id m.unit m.pdu) w1 e1, parse_header-mbap m v)
            (read_body_arrives (record { rtid = m.id; proto = 0; rlen = length m.pdu + 1 }) c1 m.pdu
              w2 fine e2),
        i2,
      )

  await_reply_arrives :
      (a tid fc cap rtid : ℕ) (body : List ℕ) (c c' : Client W)
      → read_frame os c ≡ (arrived rtid body, c')
      → await_reply os (suc a) tid fc cap c
        ≡ (if not (rtid == tid) then await_reply os a tid fc cap c' else finish os fc cap body c')
  unfolding await_reply
  await_reply_arrives a tid fc cap rtid body c c' e = ground arith

  abbrev pub IsStale : ℕ → List Message → Type 0
  IsStale tid ms = All (λ m. IsMessage m × (m.id ≢ tid)) ms

  -- With fewer stale frames than attempts in front of it, the frame with our transaction id is
  -- found, whatever the stale frames hold, and what follows it stays unread.
  pub await_reply-skips_stale :
      (s : IsStream os) (a fc cap : ℕ) (stale : List Message) (m : Message) (rest : List ℕ)
      (c : Client W)
      → length stale < a
      → IsStale m.id stale
      → IsMessage m
      → s.incoming c.world ≡ stream_of stale ++ (bytes_in m ++ rest)
      → (w : W) × (await_reply os a m.id fc cap c ≡ finish os fc cap m.pdu (record c { world = w }))
        × (s.incoming w ≡ rest)
  await_reply-skips_stale s zero fc cap stale m rest c h st v i = absurd (omega arith)
  await_reply-skips_stale s (suc a) fc cap [] m rest c h st v i =
      let (w, e, i') = read_frame-Message s m rest c v i in
      (
        w,
        rw (
          await_reply_arrives a m.id fc cap m.id m.pdu c (record c { world = w }) e,
          (==_iff m.id m.id).1 refl,
        ),
        i',
      )
  await_reply-skips_stale s (suc a) fc cap (x ∷ xs) m rest c h st v i =
      let (w, e, i') =
        read_frame-Message s x (stream_of xs ++ (bytes_in m ++ rest)) c st.0.0
          (i ∙ append_assoc (bytes_in x) (stream_of xs) (bytes_in m ++ rest)) in
      let (w', e', i'') =
        await_reply-skips_stale s a fc cap xs m rest (record c { world = w }) (omega arith) st.1 v
          i' in
      let differs : (x.id == m.id) ≡ false = ground (arith, st.0.1) in
      (
        w',
        rw (await_reply_arrives a m.id fc cap x.id x.pdu c (record c { world = w }) e, differs) e',
        i'',
      )
