-- ===== src/Client/Upload.antt =====
-- pkg/client/client.go: the messages that Put sends.
use bsos.Base.{
  ℕ, zero, suc, ◌+◌, ◌-◌, ◌*◌, ◌≤◌, ◌<◌, ◌≡◌, refl, ◌≢◌, ◌∙◌, ap, false, List, [], ◌∷◌, ◌++◌, map,
  Option, none, some, length, take, drop, take-append-drop, take-take, drop-take, All, length-take,
  length-drop, min, ltb, ◌==◌, Bool-cases, Option-cases, inl, inr, arith,
}
use bsos.Daemon.Stream.{Stream}
use bsos.Daemon.Server.{PutHeader, PutRequest, header, chunk}
use bsos.Daemon.Server.Incoming.Whole.{stream_of}
use bsos.Client.{
  Connection, Failure, stop_sending, send_some, finish_put, short_source, put_loop, put_rounds,
  put_opened, put,
}

-- The payload cut into pieces of the chunk size, the last one shorter.
unfoldable cut : ℕ → ℕ → List ℕ → List (List ℕ)
cut zero chunk_size bs = []
cut (suc rounds) chunk_size [] = []
cut (suc rounds) chunk_size (b ∷ bs) =
    take chunk_size (b ∷ bs) ∷ cut rounds chunk_size (drop chunk_size (b ∷ bs))

abbrev pub joined : List (List ℕ) → List ℕ
joined [] = []
joined (bs ∷ bss) = bs ++ joined bss

abbrev pub IsPiece : ℕ → List ℕ → Type 0
IsPiece chunk_size bs = (0 < length bs) × (length bs ≤ chunk_size)

abbrev clean_stream : List ℕ → Stream
clean_stream bs = record { bytes = bs; fault = false }

abbrev extend : List ℕ → Stream → Stream
extend bs s = record s { bytes = bs ++ s.bytes }

-- Sends the messages in order, until one fails, and then asks for the answer.
module _ (g : Connection) where
  unfoldable send_all : g.Conn → List PutRequest → g.Conn × Option Failure
  send_all c [] = g.close_and_recv c
  send_all c (m ∷ ms) =
      let sending = g.send c m in
      let rest = send_all sending.0 ms in
      elim sending.1 [ some e ↦ stop_sending g sending.0 e | none ↦ rest ]

  -- The protocol of an upload: open the stream, send the header and the payload's pieces.
  pub upload : g.Conn → PutHeader → List (List ℕ) → g.Conn × Option Failure
  upload c h pieces =
      let opened = g.put_stream c in
      elim opened.1 [
        | some e ↦ (opened.0, some e)
        | none ↦ send_all opened.0 (header h ∷ map chunk pieces)
      ]

cut-joined :
    (rounds chunk_size : ℕ) (bs : List ℕ)
    → 0 < chunk_size
    → length bs ≤ rounds * chunk_size
    → (joined (cut rounds chunk_size bs) ≡ bs) × All (IsPiece chunk_size) (cut rounds chunk_size bs)
unfolding cut
cut-joined zero chunk_size [] pos enough = (refl, tt)
cut-joined zero chunk_size (b ∷ bs) pos enough = absurd (omega (arith, enough))
cut-joined (suc rounds) chunk_size [] pos enough = (refl, tt)
cut-joined (suc rounds) chunk_size (b ∷ bs) pos enough =
    let (eq, pieces) =
      cut-joined rounds chunk_size (drop chunk_size (b ∷ bs)) pos
        (omega (arith, length-drop chunk_size (b ∷ bs))) in
    (
      ap (take chunk_size (b ∷ bs) ++◌) eq ∙ take-append-drop chunk_size (b ∷ bs),
      (
        (
          omega (arith, length-take chunk_size (b ∷ bs)),
          omega (arith, length-take chunk_size (b ∷ bs)),
        ),
        pieces,
      ),
    )

cut_step :
    (rounds chunk_size : ℕ) (bs : List ℕ)
    → 0 < length bs
    → cut (suc rounds) chunk_size bs
      ≡ take chunk_size bs ∷ cut rounds chunk_size (drop chunk_size bs)
unfolding cut
cut_step rounds chunk_size [] h = absurd (omega (arith, h))
cut_step rounds chunk_size (b ∷ bs) h = refl

cut-take :
    (rounds chunk_size m n : ℕ) (bs : List ℕ)
    → n ≡ min chunk_size m
    → 0 < m
    → m ≤ length bs
    → cut (suc rounds) chunk_size (take m bs)
      ≡ take n bs ∷ cut rounds chunk_size (take (m - n) (drop n bs))
cut-take rounds chunk_size m n bs e pos le =
    cut_step rounds chunk_size (take m bs) (omega (arith, length-take m bs))
    ∙ rw (take-take chunk_size m n bs e, drop-take chunk_size m n bs e) refl

cut_nil : (rounds chunk_size : ℕ) → cut rounds chunk_size [] ≡ []
unfolding cut
cut_nil zero chunk_size = refl
cut_nil (suc rounds) chunk_size = refl

module _ (g : Connection) (chunk_size : ℕ) (pos : 0 < chunk_size) where
  -- A round that reads the whole of its buffer.
  put_loop_round :
      (rounds : ℕ) (c : g.Conn) (total : ℕ) (r : Stream) (sent n : ℕ)
      → n ≡ min chunk_size (total - sent)
      → sent < total
      → n ≤ length r.bytes
      → put_loop g chunk_size (suc rounds) c total r sent ≡ (
          let sending = g.send c (chunk (take n r.bytes)) in
          elim sending.1 [
            | some e ↦ stop_sending g sending.0 e
            | none ↦
                put_loop g chunk_size rounds sending.0 total
                  (record r { bytes = drop n r.bytes })
                  (sent + n)
          ])
  unfolding put_loop send_some
  put_loop_round rounds c total r sent n e lt full = ground (arith, e, length-take n r.bytes)

  put_loop_done :
      (rounds : ℕ) (c : g.Conn) (total : ℕ) (r : Stream)
      → put_loop g chunk_size rounds c total r total ≡ g.close_and_recv c
  unfolding put_loop finish_put
  put_loop_done zero c total r = ground arith
  put_loop_done (suc rounds) c total r = ground arith

  put_loop-send_all :
      (rounds : ℕ) (c : g.Conn) (total : ℕ) (r : Stream) (sent : ℕ)
      → sent ≤ total
      → total ≤ sent + length r.bytes
      → total ≤ sent + rounds * chunk_size
      → put_loop g chunk_size rounds c total r sent
        ≡ send_all g c (map chunk (cut rounds chunk_size (take (total - sent) r.bytes)))
  unfolding send_all finish_put
  put_loop-send_all zero c total r sent le full enough =
      let all : sent ≡ total = omega (arith, le, enough) in
      let none_left : total - total ≡ 0 = omega arith in
      rw (all, none_left, put_loop_done zero c total r, cut_nil) refl
  put_loop-send_all (suc rounds) c total r sent le full enough =
      elim (Bool-cases (ltb sent total)) [
        | inr done ↦
            let all : sent ≡ total = ground (arith, done, le) in
            let none_left : total - total ≡ 0 = omega arith in
            rw (all, none_left, put_loop_done (suc rounds) c total r, cut_nil) refl
        | inl on ↦
            let n : ℕ = min chunk_size (total - sent) in
            let sending = g.send c (chunk (take n r.bytes)) in
            rw
              (
                put_loop_round rounds c total r sent n refl (ground (arith, on))
                    (omega (arith, full)),
                cut-take rounds chunk_size (total - sent) n r.bytes refl (ground (arith, on))
                    (omega (arith, full)),
              )
              (elim (Option-cases sending.1) [
                | inr (e, w) ↦ rw w refl
                | inl w ↦
                    let same : total - sent - n ≡ total - (sent + n) = omega arith in
                    rw (w, same)
                      (put_loop-send_all rounds sending.0 total
                        (record r { bytes = drop n r.bytes }) (sent + n) (omega (arith, le))
                        (omega (arith, full, length-drop n r.bytes)) (omega (arith, enough)))
              ])
      ]

  put_opened-send_all :
      (c : g.Conn) (h : PutHeader) (r : Stream)
      → h.total_size ≤ length r.bytes
      → put_opened g chunk_size c h r
        ≡ send_all g c (
            header h
            ∷ map chunk
                (cut (put_rounds chunk_size h.total_size) chunk_size (take h.total_size r.bytes)))
  unfolding put_opened send_all
  put_opened-send_all c h r full = elim (Option-cases (g.send c (header h)).1) [
    | inr (e, w) ↦ rw (w, put_opened, send_all) refl
    | inl w ↦
        let whole : h.total_size - 0 ≡ h.total_size = omega arith in
        rw (w, put_opened, send_all)
          (rw whole at (
            put_loop-send_all (put_rounds chunk_size h.total_size) (g.send c (header h)).0
              h.total_size r 0 (omega arith) (omega (arith, full)) (grind arith)))
  ]

  -- The server's reader of the chunks stands for the payload.
  stream_of-chunks :
      (pieces : List (List ℕ))
      → stream_of (record { buf = []; incoming = map chunk pieces; broken = false })
        ≡ record { bytes = joined pieces; fault = false }
  stream_of-chunks [] = refl
  stream_of-chunks (bs ∷ bss) = ap (extend bs) (stream_of-chunks bss)

  -- Where the source has as many bytes as the header declares and the chunk size is positive, Put
  -- does exactly what the protocol says on any connection: it opens the stream and sends the header
  -- and then pieces of the payload, stopping at the first failure, and asks for the answer at the
  -- end; the server's reader of these pieces stands for the declared number of bytes of the source,
  -- and no piece is empty or longer than the chunk size.
  pub put-upload :
      (c : g.Conn) (h : PutHeader) (r : Stream)
      → h.total_size ≤ length r.bytes
      → (pieces : List (List ℕ)) × (put g chunk_size c h r ≡ upload g c h pieces)
        × (stream_of (record { buf = []; incoming = map chunk pieces; broken = false })
            ≡ record { bytes = take h.total_size r.bytes; fault = false })
        × All (IsPiece chunk_size) pieces
  unfolding put upload
  put-upload c h r full =
      let payload : List ℕ = take h.total_size r.bytes in
      let rounds : ℕ = put_rounds chunk_size h.total_size in
      let enough : h.total_size ≤ rounds * chunk_size = grind arith in
      let (eq, sizes) =
        cut-joined rounds chunk_size payload pos
          (omega (arith, enough, length-take h.total_size r.bytes)) in
      (
        cut rounds chunk_size payload,
        (elim (Option-cases (g.put_stream c).1) [
          | inr (e, w) ↦ rw (w, put, upload) refl
          | inl w ↦ rw (w, put, upload) (put_opened-send_all (g.put_stream c).0 h r full)
        ]),
        stream_of-chunks (cut rounds chunk_size payload) ∙ ap clean_stream eq,
        sizes,
      )

  stop_sending_fails : (c : g.Conn) (e : Failure) → (stop_sending g c e).1 ≢ none
  unfolding stop_sending
  stop_sending_fails c e = elim (Option-cases (g.close_and_recv c).1) [
    | inl w ↦ rw (w, stop_sending) (ground arith)
    | inr (a, w) ↦ rw (w, stop_sending) (ground arith)
  ]

  put_loop-length :
      (rounds : ℕ) (c : g.Conn) (total : ℕ) (r : Stream) (sent : ℕ)
      → (put_loop g chunk_size rounds c total r sent).1 ≡ none
      → total ≤ sent + length r.bytes
  unfolding put_loop finish_put short_source
  put_loop-length zero c total r sent h = ground (arith, h)
  put_loop-length (suc rounds) c total r sent h = elim (Bool-cases (ltb sent total)) [
    | inr done ↦ ground (arith, done)
    | inl on ↦
        let n : ℕ = min chunk_size (total - sent) in
        let buf : List ℕ = take n r.bytes in
        let sending = send_some g c buf in
        elim (Option-cases sending.1) [
          | inr (e, w) ↦ absurd (stop_sending_fails sending.0 e (rw (on, w, put_loop) at h))
          | inl w ↦ elim (Bool-cases (length buf == n)) [
            | inr part ↦
                let h' = rw (on, w, part, put_loop) at h in
                ground (arith, h', part, length-take n r.bytes)
            | inl whole ↦ omega (
              arith,
              length-drop n r.bytes,
              length-take n r.bytes,
              put_loop-length rounds sending.0 total (record r { bytes = drop n r.bytes })
                  (sent + length buf) (rw (on, w, whole, put_loop) at h),
            )
          ]
        ]
  ]

  put_opened-length :
      (c : g.Conn) (h : PutHeader) (r : Stream)
      → (put_opened g chunk_size c h r).1 ≡ none
      → h.total_size ≤ length r.bytes
  unfolding put_opened
  put_opened-length c h r e = elim (Option-cases (g.send c (header h)).1) [
    | inr (x, w) ↦ absurd (stop_sending_fails (g.send c (header h)).0 x (rw (w, put_opened) at e))
    | inl w ↦
        let len =
          put_loop-length (put_rounds chunk_size h.total_size) (g.send c (header h)).0 h.total_size
            r 0 (rw (w, put_opened) at e) in
        omega (arith, len)
  ]

  pub put-length :
      (c : g.Conn) (h : PutHeader) (r : Stream)
      → (put g chunk_size c h r).1 ≡ none
      → h.total_size ≤ length r.bytes
  unfolding put
  put-length c h r e = elim (Option-cases (g.put_stream c).1) [
    | inr (x, w) ↦ absurd (ground (arith, rw (w, put) at e))
    | inl w ↦ put_opened-length (g.put_stream c).0 h r (rw (w, put) at e)
  ]
