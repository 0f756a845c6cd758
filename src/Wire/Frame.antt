-- ===== src/Wire/Frame.antt =====
-- src/coordinator/inter_sat_comm.cpp: sendData, receiveData and recvAll. The socket is the parameter: what
-- the peer sent stands as a list of the pieces in which it arrives, one for each `recv` at most.
use Prim.Native.Nat.{ℕ, zero, suc}
use actuator_final.Prelude.{
  ◌-◌, ◌*◌, ◌^◌, ◌≤◌, ◌<◌, Bool, true, false, ◌||◌, List, [], ◌∷◌, ◌++◌, Option, none, some, ◌≡◌,
  refl, sym, ap, ◌∙◌, arith, leb, ltb, ◌==◌, if◌then◌else◌, length, take, drop, length-append,
  take-append, drop-append, subst, leb→le, if_false,
}
use mathlib.Core.Option.{none-ne-some}
use actuator_final.Wire.{write_u32, read_u32, ◌>>=◌}
use actuator_final.Wire.Bytes.{read-write_u32}

-- kMaxFrameSizeBytes
abbrev pub max_frame_size : ℕ
max_frame_size = 8 * 1024 * 1024

-- sendData: the bytes handed to the socket; `none` where nothing is sent.
unfoldable pub frame : List ℕ → Option (List ℕ)
frame bytes =
    if (length bytes == 0) || ltb max_frame_size (length bytes)
    then none
    else some (write_u32 (length bytes) ++ bytes)

abbrev pub Pieces : Type 0
Pieces = List (List ℕ)

unfoldable pub flatten : Pieces → List ℕ
flatten [] = []
flatten (p ∷ ps) = p ++ flatten ps

-- The pieces that are left once a `recv` took `n` bytes of the first.
unfoldable pub push_back : List ℕ → Pieces → Pieces
push_back [] ps = ps
push_back (b ∷ p) ps = (b ∷ p) ∷ ps

-- recvAll: `recv` returns at most what is asked for, and an empty answer is an error or the end.
unfoldable pub recv_all : ℕ → Pieces → Option (List ℕ × Pieces)
recv_all zero ps = some ([], ps)
recv_all (suc n) [] = none
recv_all (suc n) (p ∷ ps) =
    let more = recv_all (suc n - length p) ps in
    if length p == 0
    then none
    else if leb (suc n) (length p)
    then some (take (suc n) p, push_back (drop (suc n) p) ps)
    else (more >>= λ (got, rest). some (p ++ got, rest))

unfoldable pub frame_size : List ℕ → Option ℕ
frame_size header = read_u32 header >>= λ (size, rest).
    if (size == 0) || ltb max_frame_size size then none else some size

-- receiveData
unfoldable pub receive_data : Pieces → Option (List ℕ × Pieces)
receive_data ps = do (header, rest) ← recv_all 4 ps; size ← frame_size header; recv_all size rest

-- No answer of `recv` is empty before the end.
abbrev pub NonEmpty : Pieces → Type 0
NonEmpty [] = Unit
NonEmpty (p ∷ ps) = (0 < length p) × NonEmpty ps

NonEmpty-push_back : (p : List ℕ) (ps : Pieces) → NonEmpty ps → NonEmpty (push_back p ps)
unfolding push_back
NonEmpty-push_back [] ps h = h
NonEmpty-push_back (b ∷ p) ps h = (omega arith, h)

flatten-push_back : (p : List ℕ) (ps : Pieces) → flatten (push_back p ps) ≡ p ++ flatten ps
unfolding flatten push_back
flatten-push_back [] ps = refl
flatten-push_back (b ∷ p) ps = refl

take_more :
    (p : List ℕ) (s : List ℕ) (n : ℕ) → length p ≤ n → take n (p ++ s) ≡ p ++ take (n - length p) s
take_more [] s n h = ap (λ k. take k s) (omega arith)
take_more (b ∷ p) s zero h = elim h [ ]
take_more (b ∷ p) s (suc n) h =
    ap (◌∷◌ b) (take_more p s n (omega arith) ∙ ap (λ k. p ++ take k s) (omega arith))

take_less : (p : List ℕ) (s : List ℕ) (n : ℕ) → n ≤ length p → take n (p ++ s) ≡ take n p
take_less p s zero h = refl
take_less [] s (suc n) h = elim h [ ]
take_less (b ∷ p) s (suc n) h = ap (◌∷◌ b) (take_less p s n (omega arith))

drop_more :
    (p : List ℕ) (s : List ℕ) (n : ℕ) → length p ≤ n → drop n (p ++ s) ≡ drop (n - length p) s
drop_more [] s n h = ap (λ k. drop k s) (omega arith)
drop_more (b ∷ p) s zero h = elim h [ ]
drop_more (b ∷ p) s (suc n) h = drop_more p s n (omega arith) ∙ ap (λ k. drop k s) (omega arith)

drop_less : (p : List ℕ) (s : List ℕ) (n : ℕ) → n ≤ length p → drop n (p ++ s) ≡ drop n p ++ s
drop_less p s zero h = refl
drop_less [] s (suc n) h = elim h [ ]
drop_less (b ∷ p) s (suc n) h = drop_less p s n (omega arith)

-- What recvAll is to return: the first `n` bytes, and pieces that hold the rest.
abbrev Receives : ℕ → Pieces → Option (List ℕ × Pieces) → Type 0
Receives n ps none = ⊥
Receives n ps (some (got, rest)) =
    (got ≡ take n (flatten ps)) × (flatten rest ≡ drop n (flatten ps)) × NonEmpty rest

step-enough :
    (n : ℕ) (p : List ℕ) (ps : Pieces)
    → NonEmpty ps
    → n ≤ length p
    → Receives n (p ∷ ps) (some (take n p, push_back (drop n p) ps))
unfolding flatten
step-enough n p ps h le = (
  sym (take_less p (flatten ps) n le),
  flatten-push_back (drop n p) ps ∙ sym (drop_less p (flatten ps) n le),
  NonEmpty-push_back (drop n p) ps h,
)

step-more :
    (n : ℕ) (p : List ℕ) (ps : Pieces) (r : Option (List ℕ × Pieces))
    → length p ≤ n
    → Receives (n - length p) ps r
    → Receives n (p ∷ ps) (r >>= λ (got, rest). some (p ++ got, rest))
unfolding flatten
step-more n p ps none le h = elim h [ ]
step-more n p ps (some (got, rest)) le (taken, left, h) = (
  ap (◌++◌ p) taken ∙ sym (take_more p (flatten ps) n le),
  left ∙ sym (drop_more p (flatten ps) n le),
  h,
)

select-Receives :
    (n : ℕ) (ps : Pieces) (b c : Bool) (x y : Option (List ℕ × Pieces))
    → b ≡ false
    → (c ≡ true → Receives n ps x)
    → (c ≡ false → Receives n ps y)
    → Receives n ps (if b then none else if c then x else y)
select-Receives n ps true c x y e hx hy = elim (subst (λ b. if b then Unit else ⊥) e tt) [ ]
select-Receives n ps false true x y e hx hy = hx refl
select-Receives n ps false false x y e hx hy = hy refl

nonzero : (n : ℕ) → 0 < n → (n == 0) ≡ false
nonzero n h = ground arith

below : (n m : ℕ) → leb n m ≡ false → m ≤ n
below n m e = ground arith

rest_fits :
    (n : ℕ) (p : List ℕ) (ps : Pieces)
    → n ≤ length (p ++ flatten ps)
    → n - length p ≤ length (flatten ps)
rest_fits n p ps le = omega (arith, le, length-append p (flatten ps))

recv_all-Receives :
    (n : ℕ) (ps : Pieces) → NonEmpty ps → n ≤ length (flatten ps) → Receives n ps (recv_all n ps)
unfolding recv_all flatten
recv_all-Receives zero ps h le = (refl, refl, h)
recv_all-Receives (suc n) [] h le = elim le [ ]
recv_all-Receives (suc n) (p ∷ ps) (hp, h) le =
    select-Receives (suc n) (p ∷ ps) (length p == 0) (leb (suc n) (length p))
      (some (take (suc n) p, push_back (drop (suc n) p) ps))
      (recv_all (suc n - length p) ps >>= λ (got, rest). some (p ++ got, rest))
      (nonzero (length p) hp) (λ e. step-enough (suc n) p ps h (leb→le (suc n) (length p) e))
      (λ e.
        step-more (suc n) p ps (recv_all (suc n - length p) ps) (below (suc n) (length p) e)
          (recv_all-Receives (suc n - length p) ps h (rest_fits (suc n) p ps le)))

recv_result :
    (n : ℕ) (ps : Pieces) (s t : List ℕ) (r : Option (List ℕ × Pieces))
    → Receives n ps r
    → flatten ps ≡ s ++ t
    → length s ≡ n
    → (left : Pieces) × (r ≡ some (s, left)) × (flatten left ≡ t) × NonEmpty left
recv_result n ps s t none h e len = elim h [ ]
recv_result n ps s t (some (got, left)) (taken, dropped, h) e len =
    let whole_s = ap (take n) e ∙ ap (λ k. take k (s ++ t)) (sym len) ∙ take-append s t in
    let whole_t = ap (drop n) e ∙ ap (λ k. drop k (s ++ t)) (sym len) ∙ drop-append s t in
    (left, ap (λ g. some (g, left)) (taken ∙ whole_s), dropped ∙ whole_t, h)

recv_exact :
    (s t : List ℕ) (ps : Pieces)
    → NonEmpty ps
    → flatten ps ≡ s ++ t
    → (left : Pieces) × (recv_all (length s) ps ≡ some (s, left))
      × (flatten left ≡ t)
      × NonEmpty left
recv_exact s t ps h e =
    let enough : length s ≤ length (flatten ps) = omega (arith, ap length e, length-append s t) in
    recv_result (length s) ps s t (recv_all (length s) ps)
      (recv_all-Receives (length s) ps h enough) e refl

or_else : List ℕ → Option (List ℕ) → List ℕ
or_else d none = d
or_else d (some x) = x

guarded-some :
    (b : Bool) (x y : List ℕ) → (if b then none else some x) ≡ some y → (y ≡ x) × (b ≡ false)
unfolding or_else
guarded-some true x y e = elim (none-ne-some y e) [ ]
guarded-some false x y e = (sym (ap (or_else x) e), refl)

within : (n : ℕ) → ((n == 0) || ltb max_frame_size n) ≡ false → n < 2 ^ 32
within n h = ground arith

frame_size-write :
    (n : ℕ) → ((n == 0) || ltb max_frame_size n) ≡ false → frame_size (write_u32 n) ≡ some n
unfolding frame_size write_u32
frame_size-write n h =
    ap
      (λ o.
        o >>= λ (size, rest). if (size == 0) || ltb max_frame_size size then none else some size)
      (read-write_u32 n [] (within n h))
    ∙ if_false none (some n) h

frame-some :
    (bytes sent : List ℕ)
    → frame bytes ≡ some sent
    → (sent ≡ write_u32 (length bytes) ++ bytes)
      × (((length bytes == 0) || ltb max_frame_size (length bytes)) ≡ false)
unfolding frame
frame-some bytes sent e =
    guarded-some ((length bytes == 0) || ltb max_frame_size (length bytes))
      (write_u32 (length bytes) ++ bytes) sent e

receive_data-chain :
    (ps body : Pieces) (header : List ℕ) (r : Option (List ℕ × Pieces)) (n : ℕ)
    → recv_all 4 ps ≡ some (header, body)
    → frame_size header ≡ some n
    → recv_all n body ≡ r
    → receive_data ps ≡ r
unfolding receive_data
receive_data-chain ps body header r n e1 e2 e3 = rw (e1, e2, e3)

-- A frame that sendData puts on the socket is what receiveData returns, in however many non-empty
-- pieces `recv` delivers it, and what follows the frame stays unread.
pub receive_data-frame :
    (bytes sent later : List ℕ) (ps : Pieces)
    → frame bytes ≡ some sent
    → NonEmpty ps
    → flatten ps ≡ sent ++ later
    → (left : Pieces) × (receive_data ps ≡ some (bytes, left)) × (flatten left ≡ later)
unfolding write_u32
receive_data-frame bytes sent later ps e h arrives =
    let (is_sent, fits) = frame-some bytes sent e in
    let (body, header_read, body_bytes, body_h) =
      recv_exact (write_u32 (length bytes)) (bytes ++ later) ps h
        (arrives ∙ ap (λ k. k ++ later) is_sent) in
    let (left, body_read, left_bytes, left_h) = recv_exact bytes later body body_h body_bytes in
    (
      left,
      receive_data-chain ps body (write_u32 (length bytes)) (some (bytes, left)) (length bytes)
          header_read (frame_size-write (length bytes) fits) body_read,
      left_bytes,
    )
