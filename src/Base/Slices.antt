-- ===== src/Base/Slices.antt =====
-- Pieces of a list, by position: of an audio stream, of a packet.
use asrcpp_gigam.Base.{
  length, length-append, take, drop, take-append-drop, length-take, ℕ, ◌+◌, ◌-◌, ◌≤◌, ◌≡◌, refl,
  sym, ap, ◌∙◌, subst, List, [], ◌++◌, append_assoc, append-nil, arith,
}

-- `piece` is the part of `heard` from position `start` up to `end`.
pub record Slice {ℓ} {A : Type ℓ} (heard piece : List A) (start end : ℕ) : Type ℓ where
  pub before : List A
  pub after : List A
  pub cut : heard ≡ before ++ (piece ++ after)
  pub starts : length before ≡ start
  pub ends : start + length piece ≡ end

-- `piece` is `heard` from position `start` on.
pub record Suffix {ℓ} {A : Type ℓ} (heard piece : List A) (start : ℕ) : Type ℓ where
  pub before : List A
  pub cut : heard ≡ before ++ piece
  pub starts : length before ≡ start

module _ {ℓ} {A : Type ℓ} where
  pub Slice-more :
      {heard piece : List A} {start end : ℕ} (more : List A)
      → Slice heard piece start end
      → Slice (heard ++ more) piece start end
  Slice-more {heard} {piece} more v = record {
    before = v.before;
    after = v.after ++ more;
    cut =
        ap (λ h. h ++ more) v.cut
        ∙ append_assoc v.before (piece ++ v.after) more
        ∙ ap (λ r. v.before ++ r) (append_assoc piece v.after more);
    starts = v.starts;
    ends = v.ends;
  }

  pub Suffix-append :
      {heard piece : List A} {start : ℕ} (more : List A)
      → Suffix heard piece start
      → Suffix (heard ++ more) (piece ++ more) start
  Suffix-append {heard} {piece} more v = record {
    before = v.before;
    cut = ap (λ h. h ++ more) v.cut ∙ append_assoc v.before piece more;
    starts = v.starts;
  }

  pub Suffix-nil : (heard : List A) → Suffix heard [] (length heard)
  Suffix-nil heard = record { before = heard; cut = sym (append-nil heard); starts = refl }

  pub Suffix-drop :
      {heard piece : List A} {start : ℕ} (n : ℕ)
      → Suffix heard piece start
      → n ≤ length piece
      → Suffix heard (drop n piece) (start + n)
  Suffix-drop {heard} {piece} {start} n v h = record {
    before = v.before ++ take n piece;
    cut =
        v.cut
        ∙ ap (λ p. v.before ++ p) (sym (take-append-drop n piece))
        ∙ sym (append_assoc v.before (take n piece) (drop n piece));
    starts = omega (arith, length-append v.before (take n piece), length-take n piece, v.starts);
  }

  pub Suffix-length :
      {heard piece : List A} {start : ℕ}
      → Suffix heard piece start
      → start + length piece ≡ length heard
  Suffix-length {heard} {piece} {start} v =
      omega (arith, ap length v.cut, length-append v.before piece, v.starts)

  -- The part of a suffix that leaves out its last elements.
  pub Suffix-take :
      {heard piece : List A} {start : ℕ} (n : ℕ)
      → Suffix heard piece start
      → n ≤ length piece
      → Slice heard (take n piece) start (start + n)
  Suffix-take {heard} {piece} {start} n v h = record {
    before = v.before;
    after = drop n piece;
    cut = v.cut ∙ ap (λ p. v.before ++ p) (sym (take-append-drop n piece));
    starts = v.starts;
    ends = omega (arith, length-take n piece);
  }

  pub Suffix-any :
      {heard piece : List A} {start : ℕ}
      → Suffix heard piece start
      → Suffix heard piece (length heard - length piece)
  Suffix-any {heard} {piece} {start} v =
      subst (Suffix heard piece) (omega (arith, Suffix-length v)) v

  pub Suffix-last : (heard piece : List A) → Suffix (heard ++ piece) piece (length heard)
  Suffix-last heard piece = record { before = heard; cut = refl; starts = refl }
