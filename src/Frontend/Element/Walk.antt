-- ===== src/Frontend/Element/Walk.antt =====
-- The loop of tweakUpdateButtons: over the elements of a controller and the floats of a packet.
use mfi_wrapper.Prelude.{
  ℕ, ◌+◌, ◌≡◌, refl, ap, ap₂, ◌∙◌, Bool, true, false, ◌&&◌, List, [], ◌∷◌, arith, length, drop,
}
use mfi_wrapper.Frontend.Value.{is_nan, equal}
use mfi_wrapper.Frontend.Element.{
  ButtonInput, AxisInput, DirectionPad, set_button, set_axis, set_dpad, Element, button, dpad,
  set_values, update_elements,
}
use mfi_wrapper.Frontend.Element.Laws.{
  equal_sym, IsButton, set_button-IsButton, set_button-value, set_axis-value, kept-equal,
  IsDirectionPad, set_dpad-IsDirectionPad,
}

abbrev pub NoNan : List ℕ → Type 0
NoNan [] = Unit {0}
NoNan (w ∷ ws) = (is_nan w ≡ false) × NoNan ws

-- How many floats the elements take.
abbrev pub sizes : List Element → List ℕ
sizes [] = []
sizes (button b ∷ es) = 1 ∷ sizes es
sizes (dpad p ∷ es) = 2 ∷ sizes es

abbrev pub sum : List ℕ → ℕ
sum [] = 0
sum (n ∷ ns) = n + sum ns

-- The values that the elements show, in order.
abbrev pub values : List Element → List ℕ
values [] = []
values (button b ∷ es) = b.value ∷ values es
values (dpad p ∷ es) = p.x_axis.value ∷ p.y_axis.value ∷ values es

-- Equal values, as C compares them.
abbrev pub same_values : List ℕ → List ℕ → Bool
same_values [] [] = true
same_values [] (w ∷ ws) = false
same_values (v ∷ vs) [] = false
same_values (v ∷ vs) (w ∷ ws) = equal v w && same_values vs ws

-- The parts of each element agree.
abbrev pub AllAgree : List Element → Type 0
AllAgree [] = Unit {0}
AllAgree (button b ∷ es) = IsButton b × AllAgree es
AllAgree (dpad p ∷ es) = IsDirectionPad p × AllAgree es

pub sizes-update : (es : List Element) (ws : List ℕ) → sizes (update_elements es ws).0 ≡ sizes es
unfolding update_elements set_values
sizes-update [] ws = refl
sizes-update (button b ∷ es) ws = ap (λ ns. 1 ∷ ns) (sizes-update es (drop 1 ws))
sizes-update (dpad p ∷ es) ws = ap (λ ns. 2 ∷ ns) (sizes-update es (drop 2 ws))

pub update-AllAgree :
    (es : List Element) (ws : List ℕ) → AllAgree es → AllAgree (update_elements es ws).0
unfolding update_elements set_values
update-AllAgree [] ws h = tt
update-AllAgree (button b ∷ es) ws h =
    (set_button-IsButton b _ h.0, update-AllAgree es (drop 1 ws) h.1)
update-AllAgree (dpad p ∷ es) ws h =
    (set_dpad-IsDirectionPad p _ _ h.0, update-AllAgree es (drop 2 ws) h.1)

button_shows :
    (b : ButtonInput) (v : ℕ) → is_nan v ≡ false → equal (set_button b v).0.value v ≡ true
button_shows b v h = ap (λ o. equal o v) (set_button-value b v) ∙ kept-equal b.value v h

axis_shows : (a : AxisInput) (v : ℕ) → is_nan v ≡ false → equal (set_axis a v).0.value v ≡ true
axis_shows a v h = ap (λ o. equal o v) (set_axis-value a v) ∙ kept-equal a.value v h

dpad_shows :
    (p : DirectionPad) (vx vy : ℕ)
    → is_nan vx ≡ false
    → is_nan vy ≡ false
    → (equal (set_dpad p vx vy).0.x_axis.value vx ≡ true)
      × (equal (set_dpad p vx vy).0.y_axis.value vy ≡ true)
unfolding set_dpad
dpad_shows p vx vy hx hy = ground (arith, axis_shows p.x_axis vx hx, axis_shows p.y_axis vy hy)

pub update-shows :
    (es : List Element) (ws : List ℕ)
    → sum (sizes es) ≡ length ws
    → NoNan ws
    → same_values (values (update_elements es ws).0) ws ≡ true
unfolding update_elements set_values
update-shows [] [] n h = refl
update-shows [] (w ∷ ws) n h = absurd (omega (arith, n))
update-shows (button b ∷ es) [] n h = absurd (omega (arith, n))
update-shows (button b ∷ es) (w ∷ ws) n h =
    ap₂ (λ x y. x && y) (button_shows b w h.0) (update-shows es ws (omega (arith, n)) h.1)
update-shows (dpad p ∷ es) [] n h = absurd (omega (arith, n))
update-shows (dpad p ∷ es) (w ∷ []) n h = absurd (omega (arith, n))
update-shows (dpad p ∷ es) (w ∷ v ∷ ws) n h =
    let shows = dpad_shows p w v h.0 h.1.0 in
    ap₂ (λ x y. x && y) shows.0
      (ap₂ (λ x y. x && y) shows.1 (update-shows es ws (omega (arith, n)) h.1.1))

button_silent : (b : ButtonInput) (v : ℕ) → equal b.value v ≡ true → set_button b v ≡ (b, [])
unfolding set_button
button_silent b v h = ground (arith, h, equal_sym v b.value)

dpad_silent :
    (p : DirectionPad) (vx vy : ℕ)
    → equal p.x_axis.value vx ≡ true
    → equal p.y_axis.value vy ≡ true
    → set_dpad p vx vy ≡ (p, [])
unfolding set_dpad
dpad_silent p vx vy hx hy = ground (arith, hx, hy)

pub ands : (a b : Bool) → (a && b) ≡ true → (a ≡ true) × (b ≡ true)
ands a b h = ground arith

-- Elements that show the values of a packet take it without a change and without a call.
pub update-silent :
    (es : List Element) (ws : List ℕ)
    → same_values (values es) ws ≡ true
    → update_elements es ws ≡ (es, [])
unfolding update_elements set_values
update-silent [] [] h = refl
update-silent [] (w ∷ ws) h = refl
update-silent (button b ∷ es) [] h = absurd (grind (arith, h))
update-silent (button b ∷ es) (w ∷ ws) h =
    let (here, there) = ands (equal b.value w) (same_values (values es) ws) h in
    rw (button_silent b w here, update-silent es ws there)
update-silent (dpad p ∷ es) [] h = absurd (grind (arith, h))
update-silent (dpad p ∷ es) (w ∷ []) h =
    absurd (grind (arith, ands (equal p.x_axis.value w) false h))
update-silent (dpad p ∷ es) (w ∷ v ∷ ws) h =
    let (here, rest) =
      ands (equal p.x_axis.value w) (equal p.y_axis.value v && same_values (values es) ws) h in
    let (there, more) = ands (equal p.y_axis.value v) (same_values (values es) ws) rest in
    rw (dpad_silent p w v here there, update-silent es ws more)
