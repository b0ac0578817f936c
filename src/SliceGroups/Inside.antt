-- ===== src/SliceGroups/Inside.antt =====
-- Where the box-out walk goes.
use edge264_mvc.Common.{
  ℕ, zero, suc, ◌+◌, ◌*◌, ◌<◌, ◌≡◌, refl, ap, Bool, false, ◌⊎◌, if◌then◌else◌, if_intro, arith,
  ltb→lt,
}
use native.Mathlib.Nat.{mul-le-mul_right}
use edge264_mvc.Common.Int.{
  ℤ, pos, negsuc, pos_part, neg_part, ◌+ℤ◌, ◌-ℤ◌, ◌*ℤ◌, ◌≤ℤ◌, ◌<ℤ◌, min_ℤ, max_ℤ, eq_ℤ, ltb_ℤ,
  int_laws,
}
use edge264_mvc.SliceGroups.{Dir, Walk, move_to, move, address, box_start}

record InPicture (w h : ℕ) (s : Walk) : Type 0 where
  pub from_zero_x : pos 0 ≤ℤ s.left_bound
  pub from_left : s.left_bound ≤ℤ s.x
  pub to_right : s.x ≤ℤ s.right_bound
  pub width : s.right_bound <ℤ pos w
  pub from_zero_y : pos 0 ≤ℤ s.top_bound
  pub from_top : s.top_bound ≤ℤ s.y
  pub to_bottom : s.y ≤ℤ s.bottom_bound
  pub height : s.bottom_bound <ℤ pos h

-- A bound that moves out stays in the picture.
low_bound :
    (l : ℤ) → pos 0 ≤ℤ l → (pos 0 ≤ℤ max_ℤ (l -ℤ pos 1) (pos 0)) × (max_ℤ (l -ℤ pos 1) (pos 0) ≤ℤ l)
low_bound l h =
    if_intro (λ m. (pos 0 ≤ℤ m) × (m ≤ℤ l)) (ltb_ℤ (pos 0) (l -ℤ pos 1))
      (λ t. let p = ltb→lt _ _ t in (omega (int_laws, p), omega int_laws))
      (λ _. (omega arith, omega (arith, h)))

high_bound :
    (w : ℕ) (r : ℤ)
    → r <ℤ pos w
    → let m = min_ℤ (r +ℤ pos 1) (pos w -ℤ pos 1) in (r ≤ℤ m) × (m <ℤ pos w)
high_bound w r h =
    if_intro (λ m. (r ≤ℤ m) × (m <ℤ pos w)) (ltb_ℤ (r +ℤ pos 1) (pos w -ℤ pos 1))
      (λ t. let p = ltb→lt _ _ t in (omega int_laws, omega (int_laws, p)))
      (λ _. (omega (int_laws, h), omega int_laws))

apart : (a b : ℤ) → eq_ℤ a b ≡ false → (a <ℤ b) ⊎ (b <ℤ a)
apart a b f = ground arith

module _ (flag : Bool) (w h : ℕ) where
  move_to-InPicture : (d : Dir) (s : Walk) → InPicture w h s → InPicture w h (move_to d flag w h s)
  unfolding move_to
  move_to-InPicture Dir.left s i =
      let bound = low_bound s.left_bound i.from_zero_x in
      if_intro (InPicture w h) (eq_ℤ s.x s.left_bound)
        (λ _. record {
          from_zero_x = omega (int_laws, bound, i.from_zero_x, i.from_left, i.to_right, i.width);
          from_left = omega (int_laws, bound, i.from_zero_x, i.from_left, i.to_right, i.width);
          to_right = omega (int_laws, bound, i.from_zero_x, i.from_left, i.to_right, i.width);
          width = omega (int_laws, bound, i.from_zero_x, i.from_left, i.to_right, i.width);
          from_zero_y = i.from_zero_y;
          from_top = i.from_top;
          to_bottom = i.to_bottom;
          height = i.height;
        })
        (λ f.
          let ne = apart s.x s.left_bound f in
          record {
            from_zero_x =
                omega (int_laws, bound, ne, i.from_zero_x, i.from_left, i.to_right, i.width);
            from_left =
                omega (int_laws, bound, ne, i.from_zero_x, i.from_left, i.to_right, i.width);
            to_right = omega (int_laws, bound, ne, i.from_zero_x, i.from_left, i.to_right, i.width);
            width = omega (int_laws, bound, ne, i.from_zero_x, i.from_left, i.to_right, i.width);
            from_zero_y = i.from_zero_y;
            from_top = i.from_top;
            to_bottom = i.to_bottom;
            height = i.height;
          })
  move_to-InPicture Dir.right s i =
      let bound = high_bound w s.right_bound i.width in
      if_intro (InPicture w h) (eq_ℤ s.x s.right_bound)
        (λ _. record {
          from_zero_x = omega (int_laws, bound, i.from_zero_x, i.from_left, i.to_right, i.width);
          from_left = omega (int_laws, bound, i.from_zero_x, i.from_left, i.to_right, i.width);
          to_right = omega (int_laws, bound, i.from_zero_x, i.from_left, i.to_right, i.width);
          width = omega (int_laws, bound, i.from_zero_x, i.from_left, i.to_right, i.width);
          from_zero_y = i.from_zero_y;
          from_top = i.from_top;
          to_bottom = i.to_bottom;
          height = i.height;
        })
        (λ f.
          let ne = apart s.x s.right_bound f in
          record {
            from_zero_x =
                omega (int_laws, bound, ne, i.from_zero_x, i.from_left, i.to_right, i.width);
            from_left =
                omega (int_laws, bound, ne, i.from_zero_x, i.from_left, i.to_right, i.width);
            to_right = omega (int_laws, bound, ne, i.from_zero_x, i.from_left, i.to_right, i.width);
            width = omega (int_laws, bound, ne, i.from_zero_x, i.from_left, i.to_right, i.width);
            from_zero_y = i.from_zero_y;
            from_top = i.from_top;
            to_bottom = i.to_bottom;
            height = i.height;
          })
  move_to-InPicture Dir.up s i =
      let bound = low_bound s.top_bound i.from_zero_y in
      if_intro (InPicture w h) (eq_ℤ s.y s.top_bound)
        (λ _. record {
          from_zero_x = i.from_zero_x;
          from_left = i.from_left;
          to_right = i.to_right;
          width = i.width;
          from_zero_y = omega (int_laws, bound, i.from_zero_y, i.from_top, i.to_bottom, i.height);
          from_top = omega (int_laws, bound, i.from_zero_y, i.from_top, i.to_bottom, i.height);
          to_bottom = omega (int_laws, bound, i.from_zero_y, i.from_top, i.to_bottom, i.height);
          height = omega (int_laws, bound, i.from_zero_y, i.from_top, i.to_bottom, i.height);
        })
        (λ f.
          let ne = apart s.y s.top_bound f in
          record {
            from_zero_x = i.from_zero_x;
            from_left = i.from_left;
            to_right = i.to_right;
            width = i.width;
            from_zero_y =
                omega (int_laws, bound, ne, i.from_zero_y, i.from_top, i.to_bottom, i.height);
            from_top =
                omega (int_laws, bound, ne, i.from_zero_y, i.from_top, i.to_bottom, i.height);
            to_bottom =
                omega (int_laws, bound, ne, i.from_zero_y, i.from_top, i.to_bottom, i.height);
            height = omega (int_laws, bound, ne, i.from_zero_y, i.from_top, i.to_bottom, i.height);
          })
  move_to-InPicture Dir.down s i =
      let bound = high_bound h s.bottom_bound i.height in
      if_intro (InPicture w h) (eq_ℤ s.y s.bottom_bound)
        (λ _. record {
          from_zero_x = i.from_zero_x;
          from_left = i.from_left;
          to_right = i.to_right;
          width = i.width;
          from_zero_y = omega (int_laws, bound, i.from_zero_y, i.from_top, i.to_bottom, i.height);
          from_top = omega (int_laws, bound, i.from_zero_y, i.from_top, i.to_bottom, i.height);
          to_bottom = omega (int_laws, bound, i.from_zero_y, i.from_top, i.to_bottom, i.height);
          height = omega (int_laws, bound, i.from_zero_y, i.from_top, i.to_bottom, i.height);
        })
        (λ f.
          let ne = apart s.y s.bottom_bound f in
          record {
            from_zero_x = i.from_zero_x;
            from_left = i.from_left;
            to_right = i.to_right;
            width = i.width;
            from_zero_y =
                omega (int_laws, bound, ne, i.from_zero_y, i.from_top, i.to_bottom, i.height);
            from_top =
                omega (int_laws, bound, ne, i.from_zero_y, i.from_top, i.to_bottom, i.height);
            to_bottom =
                omega (int_laws, bound, ne, i.from_zero_y, i.from_top, i.to_bottom, i.height);
            height = omega (int_laws, bound, ne, i.from_zero_y, i.from_top, i.to_bottom, i.height);
          })

  -- The walk after a number of steps.
  unfoldable pub steps : ℕ → Walk → Walk
  unfolding move
  steps zero s = s
  steps (suc k) s = steps k (move flag w h s)

  steps-InPicture : (k : ℕ) (s : Walk) → InPicture w h s → InPicture w h (steps k s)
  unfolding steps move
  steps-InPicture zero s i = i
  steps-InPicture (suc k) s i = steps-InPicture k (move flag w h s) (move_to-InPicture s.dir s i)

box_start-InPicture : (flag w h : ℕ) → 0 < w → 0 < h → InPicture w h (box_start flag w h)
unfolding box_start
box_start-InPicture flag w h pw ph = record {
  from_zero_x = omega arith;
  from_left = omega arith;
  to_right = omega arith;
  width = omega arith;
  from_zero_y = omega arith;
  from_top = omega arith;
  to_bottom = omega arith;
  height = omega arith;
}

natural : (a : ℤ) → pos 0 ≤ℤ a → (n : ℕ) × (a ≡ pos n)
natural (pos n) h = (n, refl)
natural (negsuc n) h = absurd (omega arith)

address_of :
    (w : ℕ) (s : Walk) (x y : ℕ) → s.x ≡ pos x → s.y ≡ pos y → address w s ≡ pos (y * w + x)
unfolding address ◌+ℤ◌ ◌*ℤ◌
address_of w s x y ex ey = rw (ex, ey) (ground arith)

-- In a picture that is not empty, each step of the box-out walk is in a column and a row of the picture,
-- so the unit that it reads and writes is one of the map, however many steps are taken.
pub steps_inside :
    (w h k : ℕ) (flag : Bool)
    → 0 < w
    → 0 < h
    → let s = steps flag w h k (box_start (if flag then 1 else 0) w h) in
      (pos 0 ≤ℤ s.x)
      × (s.x <ℤ pos w)
      × (pos 0 ≤ℤ s.y)
      × (s.y <ℤ pos h)
      × (pos 0 ≤ℤ address w s)
      × (address w s <ℤ pos (w * h))
steps_inside w h k flag pw ph =
    let s = steps flag w h k (box_start (if flag then 1 else 0) w h) in
    let i =
      steps-InPicture flag w h k (box_start (if flag then 1 else 0) w h)
        (box_start-InPicture (if flag then 1 else 0) w h pw ph) in
    let (x, ex) = natural s.x (omega (arith, i.from_zero_x, i.from_left)) in
    let (y, ey) = natural s.y (omega (arith, i.from_zero_y, i.from_top)) in
    let lx : x < w = omega (arith, i.to_right, i.width, ap pos_part ex, ap neg_part ex) in
    let ly : y < h = omega (arith, i.to_bottom, i.height, ap pos_part ey, ap neg_part ey) in
    let e = address_of w s x y ex ey in
    (
      omega (arith, i.from_zero_x, i.from_left),
      omega (arith, i.to_right, i.width),
      omega (arith, i.from_zero_y, i.from_top),
      omega (arith, i.to_bottom, i.height),
      omega (arith, ap pos_part e, ap neg_part e),
      omega (arith, ap pos_part e, ap neg_part e, mul-le-mul_right w ly),
    )
