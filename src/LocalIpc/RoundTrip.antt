-- ===== src/LocalIpc/RoundTrip.antt =====
-- What is written is read back.
use context_layer.Base.{
  ℕ, ◌%◌, ◌^◌, ◌≤◌, ◌≡◌, refl, ap, ◌∙◌, sym, leb, List, [], ◌∷◌, ◌++◌, append_assoc, length, take,
  drop, length-append, ok, ensure, map_err, bind-ok, ok_inj, ensure-ok, map_err-ok, arith, le→leb,
  leb→le,
}
use context_layer.LocalIpc.{
  max_frame_bytes, json, too_large, Json, read_exact, u32_from_le_bytes, u32_to_le_bytes,
  read_frame, write_frame,
}

take-length {ℓ} : {A : Type ℓ} (xs ys : List A) → take (length xs) (xs ++ ys) ≡ xs
take-length [] ys = refl
take-length (x ∷ xs) ys = ap (◌∷◌ x) (take-length xs ys)

drop-length {ℓ} : {A : Type ℓ} (xs ys : List A) → drop (length xs) (xs ++ ys) ≡ ys
drop-length [] ys = refl
drop-length (x ∷ xs) ys = drop-length xs ys

read_exact-append : (xs ys : List ℕ) → read_exact (length xs) (xs ++ ys) ≡ ok (xs, ys)
unfolding read_exact
read_exact-append xs ys = rw (
  le→leb (length xs) (length (xs ++ ys)) (omega (arith, length-append xs ys)),
  take-length xs ys,
  drop-length xs ys,
)

u32_from_le_bytes-to_le_bytes :
    (n : ℕ) → n ≤ 1048576 → u32_from_le_bytes (u32_to_le_bytes (n % 2 ^ 32)) ≡ n
u32_from_le_bytes-to_le_bytes n h = omega arith

-- The frame of a payload is read back, whatever follows it.
read_frame-payload :
    {T : Type 0} (serde : Json T) (value : T) (payload rest : List ℕ)
    → serde.from_slice payload ≡ ok value
    → length payload ≤ max_frame_bytes
    → read_frame serde (u32_to_le_bytes (length payload % 2 ^ 32) ++ (payload ++ rest))
      ≡ ok (value, rest)
unfolding read_frame
read_frame-payload serde value payload rest hd hn =
    let n = u32_from_le_bytes-to_le_bytes (length payload) hn in
    rw (
      read_exact-append (u32_to_le_bytes (length payload % 2 ^ 32)) (payload ++ rest),
      n,
      le→leb (length payload) max_frame_bytes hn,
      read_exact-append payload rest,
      hd,
    )

-- A successful write appends one frame to the output, and reading that frame, with anything behind it,
-- gives the value back and leaves exactly what is behind it, if the JSON of the value decodes to it.
pub read_frame-write_frame :
    {T : Type 0} (serde : Json T) (value : T) (output output' : List ℕ)
    → ((payload : List ℕ) → serde.to_vec value ≡ ok payload → serde.from_slice payload ≡ ok value)
    → write_frame serde value output ≡ ok output'
    → (frame : List ℕ) × (output' ≡ output ++ frame)
      × ((rest : List ℕ) → read_frame serde (frame ++ rest) ≡ ok (value, rest))
unfolding write_frame
read_frame-write_frame serde value output output' faithful h =
    let (payload, hp, h1) = bind-ok (map_err json (serde.to_vec value)) _ output' h in
    let (u, small, done) =
      bind-ok
        (ensure (leb (length payload) max_frame_bytes) (too_large (length payload) max_frame_bytes))
        _ output' h1 in
    let encoded : serde.to_vec value ≡ ok payload =
      map_err-ok json (serde.to_vec value) payload hp in
    let fits : length payload ≤ max_frame_bytes =
      leb→le (length payload) max_frame_bytes
        (ensure-ok (leb (length payload) max_frame_bytes) _ u small) in
    (
      u32_to_le_bytes (length payload % 2 ^ 32) ++ payload,
      sym (ok_inj done) ∙ append_assoc output (u32_to_le_bytes (length payload % 2 ^ 32)) payload,
      λ rest.
          ap (read_frame serde)
            (append_assoc (u32_to_le_bytes (length payload % 2 ^ 32)) payload rest)
          ∙ read_frame-payload serde value payload rest (faithful payload encoded) fits,
    )
