-- ===== src/Streaming/Buffered/Replay.antt =====
-- A buffered stream gives out its body in order, and the same body again after `seek_to_start`.
use s3mer.Base.{
  ℕ, zero, suc, ◌+◌, ◌-◌, ◌<◌, ◌≤◌, take-eq-nil, take_prefix, ◌≡◌, ◌≢◌, refl, sym, ap, ◌∙◌, Bool,
  true, false, List, [], ◌∷◌, ◌++◌, length, length-drop, drop, concat, All, length-append, take_ge,
  drop_ge, drop-eq-nil, drop-drop, arith, if◌then◌else◌,
}
use mathlib.Core.List.{append-nil, append_assoc}
use native.Mathlib.Nat.{le_refl}
use s3mer.Streaming.Bytes.{Bytes, Amount, everything, at_most}
use s3mer.Streaming.Buffered.{
  Buffered, init, seek_to_start, read, read_source, read_tmp, read_live, file_read, file_write,
  amount_of, zeros,
}

-- The body of the request, and the part of it that a reader at this position has yet to see.
abbrev pub whole : Buffered → Bytes
whole b = b.content ++ concat b.source

abbrev pub ahead : Buffered → Bytes
ahead b = drop b.position b.content ++ concat b.source

-- No chunk of the source is empty; live reads go on at the end of the file; after the end of the
-- source there is nothing more in it.
pub record IsValid (b : Buffered) : Type 0 where
  pub chunks : All (λ c. c ≢ []) b.source
  pub within : b.position ≤ length b.content
  pub live : b.read_from_tmp ≡ false → b.position ≡ length b.content
  pub ended : b.eof_reached ≡ true → b.source ≡ []

-- What a read has done: the bytes are the next ones, and the body is still the same.
pub record Reads (b : Buffered) (r : Bytes × Buffered) : Type 0 where
  pub valid : IsValid r.1
  pub in_order : r.0 ++ ahead r.1 ≡ ahead b
  pub same_body : whole r.1 ≡ whole b
  pub at_end : r.0 ≡ [] → ahead b ≡ []

file_write_at_end :
    (c : Bytes) (b : Buffered)
    → b.position ≡ length b.content
    → file_write c b ≡ record b { content = b.content ++ c; position = b.position + length c }
unfolding file_write zeros
file_write_at_end [] b p = rw append-nil (ap (λ n. record b { position = n }) (omega arith))
file_write_at_end (c ∷ cs) b p =
    let no_gap : b.position - length b.content ≡ 0 = omega arith in
    rw
      (
        no_gap,
        take_ge b.position b.content (omega arith),
        drop_ge (b.position + length (c ∷ cs)) b.content (omega arith),
        append-nil,
      )
      refl

live-Reads :
    (src : List Bytes) (b : Buffered)
    → src ≡ b.source
    → IsValid b
    → b.position ≡ length b.content
    → b.read_from_tmp ≡ false
    → Reads b (read_live src b)
unfolding read_live
live-Reads [] b e v p t = record {
  valid = record { chunks = v.chunks; within = v.within; live = v.live; ended = λ _. sym e };
  in_order = refl;
  same_body = refl;
  at_end = λ _. rw (← e, drop_ge b.position b.content (omega arith)) refl;
}
live-Reads (c ∷ cs) b e v p t =
    let chunks : All (λ c. c ≢ []) (c ∷ cs) = rw (← e) at v.chunks in
    rw (file_write_at_end c (record b { source = cs }) p) (record {
      valid = record {
        chunks = chunks.1;
        within = omega (arith, length-append b.content c);
        live = λ _. omega (arith, length-append b.content c);
        ended = λ h. cc (v.ended h);
      };
      in_order =
          rw
            (
              drop_ge (b.position + length c) (b.content ++ c)
                  (omega (arith, length-append b.content c)),
              drop_ge b.position b.content (omega arith),
              ← e,
            )
            refl;
      same_body = rw (← e, append_assoc) refl;
      at_end = λ h. absurd (chunks.0 h);
    })

abbrev pub IsPositive : Amount → Type 0
IsPositive everything = Unit
IsPositive (at_most n) = 0 < n

nothing_read :
    (n : Amount) (b : Buffered) → IsPositive n → file_read n b ≡ [] → length b.content ≤ b.position
unfolding file_read amount_of
nothing_read everything b pos e = drop-eq-nil b.position b.content e
nothing_read (at_most (suc n)) b pos e =
    drop-eq-nil b.position b.content (take-eq-nil n (drop b.position b.content) e)
nothing_read (at_most zero) b pos e = absurd (omega arith)

Reads-if :
    (b : Buffered) (t : Bool) (x y : Bytes × Buffered)
    → (t ≡ true → Reads b x)
    → (t ≡ false → Reads b y)
    → Reads b (if t then x else y)
Reads-if b true x y p q = p refl
Reads-if b false x y p q = q refl

-- a read that finds nothing and changes nothing, at the end of the body
nothing-Reads :
    (b : Buffered)
    → IsValid b
    → length b.content ≤ b.position
    → b.eof_reached ≡ true
    → Reads b ([], b)
nothing-Reads b v end ended = record {
  valid = v;
  in_order = refl;
  same_body = refl;
  at_end = λ _. rw (v.ended ended, drop_ge b.position b.content end) refl;
}

source-Reads :
    (b : Buffered)
    → IsValid b
    → b.position ≡ length b.content
    → b.read_from_tmp ≡ false
    → Reads b (read_source b)
unfolding read_source
source-Reads b v p t =
    Reads-if b b.eof_reached _ _ (nothing-Reads b v (omega arith))
      (λ _. live-Reads b.source b refl v p t)

-- the flag that selects the buffer is no part of what is ahead
same_place :
    (b : Buffered) (r : Bytes × Buffered) → Reads (record b { read_from_tmp = false }) r → Reads b r
same_place b r h = record {
  valid = h.valid;
  in_order = h.in_order;
  same_body = h.same_body;
  at_end = h.at_end;
}

found_prefix :
    (n : Amount) (chunk : Bytes) (b : Buffered)
    → chunk ≡ file_read n b
    → chunk ++ drop (length chunk) (drop b.position b.content) ≡ drop b.position b.content
unfolding file_read amount_of
found_prefix everything chunk b e = rw (e, drop_ge _ _ (le_refl _), append-nil) refl
found_prefix (at_most n) chunk b e = rw e (take_prefix n (drop b.position b.content))

tmp-Reads :
    (n : Amount) (chunk : Bytes) (b : Buffered)
    → IsPositive n
    → chunk ≡ file_read n b
    → IsValid b
    → b.read_from_tmp ≡ true
    → Reads b (read_tmp chunk b)
unfolding read_tmp
tmp-Reads n [] b pos e v t =
    let end : length b.content ≤ b.position = nothing_read n b pos (sym e) in
    let at_end : b.position ≡ length b.content = omega (arith, v.within) in
    Reads-if b b.eof_reached _ _ (nothing-Reads b v end) (λ _. same_place b _ (
      source-Reads (record b { read_from_tmp = false })
        (record { chunks = v.chunks; within = v.within; live = λ _. at_end; ended = v.ended })
        at_end refl))
tmp-Reads n (c ∷ cs) b pos e v t =
    let found : (c ∷ cs) ++ drop (length (c ∷ cs)) (drop b.position b.content)
        ≡ drop b.position b.content =
      found_prefix n (c ∷ cs) b e in
    record {
      valid = record {
        chunks = v.chunks;
        within = omega (
          arith,
          ap length found,
          length-append (c ∷ cs) (drop (length (c ∷ cs)) (drop b.position b.content)),
          length-drop b.position b.content,
        );
        live = λ h. cc;
        ended = v.ended;
      };
      in_order =
          ap (λ d. (c ∷ cs) ++ (d ++ concat b.source))
            (sym (drop-drop (length (c ∷ cs)) b.position b.content))
          ∙ sym (append_assoc (c ∷ cs) _ _)
          ∙ ap (λ d. d ++ concat b.source) found;
      same_body = refl;
      at_end = λ h. cc;
    }

-- Every read from a valid stream, from the buffer or live, gives out the next bytes of the body
-- (none only at its end), keeps the stream valid and the body whole for a replay.
pub read-Reads : (n : Amount) (b : Buffered) → IsPositive n → IsValid b → Reads b (read n b)
unfolding read
read-Reads n b pos v =
    Reads-if b b.read_from_tmp _ _ (λ t. tmp-Reads n (file_read n b) b pos refl v t)
      (λ t. source-Reads b v (v.live t) t)

pub init-IsValid :
    (source : List Bytes) (size : ℕ) → All (λ c. c ≢ []) source → IsValid (init source size)
unfolding init
init-IsValid source size h = record {
  chunks = h;
  within = omega arith;
  live = λ _. refl;
  ended = λ h. cc;
}

pub seek_to_start-IsValid : (b : Buffered) → IsValid b → IsValid (seek_to_start b)
unfolding seek_to_start
seek_to_start-IsValid b v = record {
  chunks = v.chunks;
  within = omega arith;
  live = λ h. cc;
  ended = v.ended;
}

-- A sequence of reads, with what they returned.
pub reads : List Amount → Buffered → List Bytes × Buffered
reads [] b = ([], b)
reads (n ∷ ns) b =
    let (chunk, b') = read n b in let (chunks, end) = reads ns b' in (chunk ∷ chunks, end)

pub reads_lem :
    (ns : List Amount) (b : Buffered)
    → All IsPositive ns
    → IsValid b
    → let (chunks, end) = reads ns b in
      IsValid end × (concat chunks ++ ahead end ≡ ahead b) × (whole end ≡ whole b)
unfolding reads
reads_lem [] b pos v = (v, refl, refl)
reads_lem (n ∷ ns) b pos v =
    let one = read-Reads n b pos.0 v in
    let rest = reads_lem ns (read n b).1 pos.1 one.valid in
    (
      rest.0,
      append_assoc (read n b).0 _ _ ∙ ap (λ t. (read n b).0 ++ t) rest.1 ∙ one.in_order,
      rest.2 ∙ one.same_body,
    )

-- Whatever a first consumer has read of a buffered body, a second one that starts over by
-- `seek_to_start` reads the same body from its first byte, also past the point that the first
-- reached: what it has read is followed by exactly what is still ahead, and where a further read of a
-- positive size returns nothing it has read all of the body.
pub reads-seek_to_start :
    (source : List Bytes) (size : ℕ) (ns ms : List Amount)
    → All (λ c. c ≢ []) source
    → All IsPositive ns
    → All IsPositive ms
    → let (first, b) = reads ns (init source size) in
      let (second, end) = reads ms (seek_to_start b) in
      (concat first ++ ahead b ≡ concat source)
      × (concat second ++ ahead end ≡ concat source)
      × ((n : Amount) → IsPositive n → (read n end).0 ≡ [] → concat second ≡ concat source)
unfolding init seek_to_start
reads-seek_to_start source size ns ms h pn pm =
    let one = reads_lem ns (init source size) pn (init-IsValid source size h) in
    let b = (reads ns (init source size)).1 in
    let two = reads_lem ms (seek_to_start b) pm (seek_to_start-IsValid b one.0) in
    let end = (reads ms (seek_to_start b)).1 in
    (
      one.1,
      two.1 ∙ one.2,
      λ n pos e.
          sym (append-nil _)
          ∙ ap (λ t. concat (reads ms (seek_to_start b)).0 ++ t)
              (sym ((read-Reads n end pos two.0).at_end e))
          ∙ two.1
          ∙ one.2,
    )
