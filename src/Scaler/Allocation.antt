-- ===== src/Scaler/Allocation.antt =====
-- pkg/scaler/docker.go: the numbers and ports of new nodes, and the image they are started from.
use ws_gateway.Common.{
  ℕ, suc, ◌+◌, ◌-◌, ◌<◌, ◌≡◌, ◌≢◌, refl, ap, subst, ◌∙◌, inl, inr, Option, none, some, List, [],
  ◌∷◌, ◌++◌, arith, if◌then◌else◌, Bool-cases, length, All, get_elem?, List-cases, ◌⊎◌,
}
use ws_gateway.Common.Int.{
  ℤ, pos, ◌≤ℤ◌, ◌<ℤ◌, ltb_ℤ, pos_part, half64, add64, add64_small, pos_of_nonneg,
}
use ws_gateway.Common.Keys.{Text, text_eq}
use ws_gateway.Common.Format.{show_int, digits_nonempty}
use ws_gateway.Common.Parse.{parse_int, parse_int-show_nat}
use ws_gateway.Errors.{ok}
use ws_gateway.Scaler.{
  Node, Image, Platform, gw, latest_loop, first_tag, extract_node_id_number, max_loop,
  next_id_and_port, new_node_id,
}

-- The images are not newer than a time.
abbrev pub NoneNewer : ℤ → List Image → Type 0
NoneNewer t images = All (λ i. i.created ≤ℤ t) images

-- The image that the loop ends with is among the images, or the one it started with; none is newer.
latest :
    (is : List Image) (t : ℤ) (l : Option Image) (i : Image)
    → latest_loop is t l ≡ some i
    → ((j : Image) → l ≡ some j → j.created ≡ t)
    → NoneNewer i.created is × (t ≤ℤ i.created)
unfolding latest_loop
latest [] t l i e h = (tt, ground (arith, h i e))
latest (x ∷ xs) t l i e h = elim (Bool-cases (ltb_ℤ t x.created)) [
  | inl newer ↦
      let (a, b) = latest xs x.created (some x) i (rw newer at e) (λ j f. ground arith) in
      ((b, a), ground arith)
  | inr older ↦ let (a, b) = latest xs t l i (rw older at e) h in ((ground arith, a), b)
]

latest_listed :
    (is : List Image) (t : ℤ) (l : Option Image) (i : Image)
    → latest_loop is t l ≡ some i
    → (l ≡ some i) ⊎ ((k : ℕ) × (get_elem? is k ≡ some i))
unfolding latest_loop
latest_listed [] t l i e = inl e
latest_listed (x ∷ xs) t l i e = elim (Bool-cases (ltb_ℤ t x.created)) [
  | inl newer ↦ elim (latest_listed xs x.created (some x) i (rw newer at e)) [
    | inl here ↦ inr (0, here)
    | inr (k, there) ↦ inr (suc k, there)
  ]
  | inr older ↦ elim (latest_listed xs t l i (rw older at e)) [
    | inl here ↦ inl here
    | inr (k, there) ↦ inr (suc k, there)
  ]
]

first_tag_lem :
    (o : Option Image) (tag : Text)
    → first_tag o ≡ ok tag
    → (i : Image) × (more : List Text) × (o ≡ some i) × (i.repo_tags ≡ tag ∷ more)
unfolding first_tag
first_tag_lem none tag e = ground arith
first_tag_lem (some i) tag e = elim (List-cases i.repo_tags) [
  | inl bare ↦ absurd (ground (arith, e, bare))
  | inr (t, ts, tagged) ↦ (i, ts, refl, ground (arith, e, tagged))
]

-- The image that `findLatestImage` names by its first tag is one of the listed ones, and none of them
-- was created later.
pub latest_image :
    (images : List Image) (tag : Text)
    → first_tag (latest_loop images (pos 0) none) ≡ ok tag
    → (k : ℕ) × (i : Image) × (more : List Text) × (get_elem? images k ≡ some i)
      × (i.repo_tags ≡ tag ∷ more)
      × NoneNewer i.created images
latest_image images tag e =
    let (i, more, named, tagged) = first_tag_lem (latest_loop images (pos 0) none) tag e in
    elim (latest_listed images (pos 0) none i named) [
      | inl nothing ↦ absurd (ground arith)
      | inr (k, there) ↦
          (k, i, more, there, tagged, (latest images (pos 0) none i named (λ j f. ground arith)).0)
    ]

module _ (P : Platform) where
  -- A node's number and port are not above these.
  abbrev pub UpTo : ℤ → ℤ → Node → Type 0
  UpTo i p n = (extract_node_id_number P n.id ≤ℤ i) × (n.port ≤ℤ p)

  max_loop_lem :
      (ns : List Node) (i p : ℤ) (b : ℤ)
      → i ≤ℤ b
      → p ≤ℤ b
      → All (UpTo b b) ns
      → All (UpTo (max_loop P ns i p).0 (max_loop P ns i p).1) ns
        × (i ≤ℤ (max_loop P ns i p).0)
        × (p ≤ℤ (max_loop P ns i p).1)
        × ((max_loop P ns i p).0 ≤ℤ b)
        × ((max_loop P ns i p).1 ≤ℤ b)
  unfolding max_loop
  max_loop_lem [] i p b hi hp h = (tt, omega arith, omega arith, hi, hp)
  max_loop_lem (n ∷ ns) i p b hi hp h =
      let num = extract_node_id_number P n.id in
      let i' : ℤ = if ltb_ℤ i num then num else i in
      let p' : ℤ = if ltb_ℤ p n.port then n.port else p in
      let (a, c, d, e, f) = max_loop_lem ns i' p' b (ground arith) (ground arith) h.1 in
      (((ground arith, ground arith), a), ground arith, ground arith, e, f)

  next_lem :
      (ns : List Node)
      → All (UpTo (pos (half64 - 2)) (pos (half64 - 2))) ns
      → All (UpTo (max_loop P ns (pos 1) (pos 9002)).0 (max_loop P ns (pos 1) (pos 9002)).1) ns
        × ((next_id_and_port P ns).0 ≡ pos (pos_part (max_loop P ns (pos 1) (pos 9002)).0 + 1))
        × ((next_id_and_port P ns).1 ≡ pos (pos_part (max_loop P ns (pos 1) (pos 9002)).1 + 1))
        × (pos 1 ≤ℤ (max_loop P ns (pos 1) (pos 9002)).0)
        × (pos 9002 ≤ℤ (max_loop P ns (pos 1) (pos 9002)).1)
  unfolding next_id_and_port
  next_lem ns h =
      let (a, c, d, e, f) =
        max_loop_lem ns (pos 1) (pos 9002) (pos (half64 - 2)) (omega arith) (omega arith) h in
      let i = pos_of_nonneg (max_loop P ns (pos 1) (pos 9002)).0 (ground arith) in
      let p = pos_of_nonneg (max_loop P ns (pos 1) (pos 9002)).1 (ground arith) in
      (
        a,
        ap (λ x. add64 x (pos 1)) i
            ∙ add64_small (pos_part (max_loop P ns (pos 1) (pos 9002)).0) 1 (ground arith),
        ap (λ x. add64 x (pos 1)) p
            ∙ add64_small (pos_part (max_loop P ns (pos 1) (pos 9002)).1) 1 (ground arith),
        c,
        d,
      )

  extract_nonempty :
      (t : Text) (n : ℤ)
      → 0 < length t
      → parse_int t ≡ some n
      → extract_node_id_number P (gw ++ t) ≡ n
  unfolding extract_node_id_number
  extract_nonempty [] n h e = ground arith
  extract_nonempty (d ∷ rest) n h e = rw e refl

  parse_int-show_int : (n : ℕ) → n < half64 → parse_int (show_int (pos n)) ≡ some (pos n)
  unfolding show_int
  parse_int-show_int n h = parse_int-show_nat n h

  -- The number in a new node's id is read back.
  extract-new_node_id :
      (n : ℕ)
      → parse_int (show_int (pos n)) ≡ some (pos n)
      → extract_node_id_number P (new_node_id P (pos n)) ≡ pos n
  unfolding show_int
  extract-new_node_id n e = extract_nonempty (show_int (pos n)) (pos n) (digits_nonempty n n) e

  -- A registered node against the number and the port for a new one.
  abbrev pub IsBelow : ℤ × ℤ → Node → Type 0
  IsBelow next n = (n.id ≢ new_node_id P next.0) × (n.port <ℤ next.1)

  below :
      (ns : List Node) (i p : ℕ) (next : ℤ × ℤ)
      → All (UpTo (pos i) (pos p)) ns
      → next.0 ≡ pos (i + 1)
      → next.1 ≡ pos (p + 1)
      → parse_int (show_int (pos (i + 1))) ≡ some (pos (i + 1))
      → All (IsBelow next) ns
  below [] i p next h ei ep e = tt
  below (n ∷ ns) i p next h ei ep e = (
    (
      λ same.
          let mine : extract_node_id_number P n.id ≡ pos (i + 1) =
            ap (extract_node_id_number P) same
            ∙ (ap (λ x. extract_node_id_number P (new_node_id P x)) ei
                ∙ extract-new_node_id (i + 1) e) in
          ground arith,
      ground arith,
    ),
    below ns i p next h.1 ei ep e,
  )

  -- The id and the port for a new node are used by no registered node: its id is none of theirs and its
  -- port is above all of theirs, from 2 and 9003 on. The numbers in the ids and the ports may not be so
  -- large that one more leaves the int64 range.
  pub fresh_node :
      (ns : List Node)
      → All (UpTo (pos (half64 - 2)) (pos (half64 - 2))) ns
      → All (IsBelow (next_id_and_port P ns)) ns
        × (pos 2 ≤ℤ (next_id_and_port P ns).0)
        × (pos 9003 ≤ℤ (next_id_and_port P ns).1)
  fresh_node ns h =
      let (a, ei, ep, li, lp) = next_lem ns h in
      let m = max_loop P ns (pos 1) (pos 9002) in
      let (_, _, _, low, _) =
        max_loop_lem ns (pos 1) (pos 9002) (pos (half64 - 2)) (omega arith) (omega arith) h in
      let i = pos_of_nonneg m.0 (ground arith) in
      let p = pos_of_nonneg m.1 (ground arith) in
      (
        below ns (pos_part m.0) (pos_part m.1) (next_id_and_port P ns)
            (subst (λ x. All (UpTo x (pos (pos_part m.1))) ns) i
              (subst (λ x. All (UpTo m.0 x) ns) p a))
            ei ep (parse_int-show_int (pos_part m.0 + 1) (ground arith)),
        rw ei (ground arith),
        rw ep (ground arith),
      )
