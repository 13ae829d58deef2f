-- ===== src/MainWindow/Layout.antt =====
-- `LayoutControls`: where the two lists and the buttons stand. A difference that the code would make
-- negative is 0 here, and below the minimum that is taken for it in either case.
use p2p_server_file_storage.Prelude.{
  ℕ, ◌+◌, ◌-◌, ◌/◌, ◌≤◌, ◌<◌, ◌≡◌, refl, false, ◌||◌, Option, none, some, ltb, ◌==◌, if◌then◌else◌,
  arith,
}

-- Position and size.
pub record Rect : Type 0 where
  pub x : ℕ
  pub y : ℕ
  pub width : ℕ
  pub height : ℕ

pub record Places : Type 0 where
  pub file_label : Rect
  pub node_label : Rect
  pub file_list : Rect
  pub node_list : Rect
  pub upload_button : Rect
  pub download_button : Rect
  pub chunks_button : Rect
  pub refresh_button : Rect

at_least : ℕ → ℕ → ℕ
at_least least n = if ltb n least then least else n

button : ℕ → ℕ → ℕ → Rect
button x y width = record { x = x; y = y; width = width; height = 25 }

unfoldable pub places : ℕ → ℕ → ℕ → Places
unfolding at_least button
places width height status =
    let list_height = at_least 100 (height - status - 150) in
    let left_width = at_least 200 ((width - 30) / 2) in
    let right_x = 10 + left_width + 10 in
    let right_width = at_least 200 (width - right_x - 10) in
    let button_y = 50 + list_height + 10 in
    record {
      file_label = record { x = 10; y = 30; width = 100; height = 25 };
      node_label = record { x = right_x; y = 30; width = 150; height = 25 };
      file_list = record { x = 10; y = 50; width = left_width; height = list_height };
      node_list = record { x = right_x; y = 50; width = right_width; height = list_height };
      upload_button = button 10 button_y 120;
      download_button = button 140 button_y 120;
      chunks_button = button 270 button_y 120;
      refresh_button = button 400 button_y 100;
    }

-- `none`: nothing is moved. The last argument is the height of the status bar.
unfoldable pub layout_controls : ℕ → ℕ → ℕ → Option Places
layout_controls width height status =
    if width == 0 || height == 0 then none else some (places width height status)

-- The one ends left of the other.
abbrev pub IsLeftOf : Rect → Rect → Type 0
IsLeftOf a b = a.x + a.width < b.x

abbrev pub IsAbove : Rect → Rect → Type 0
IsAbove a b = a.y + a.height < b.y

at_least_lem :
    (least n : ℕ)
    → (least ≤ at_least least n) × (n ≤ at_least least n) × (least ≤ n → at_least least n ≡ n)
unfolding at_least
at_least_lem least n = ground arith

-- Something holds of each of the four buttons.
abbrev pub AllButtons : (Rect → Type 0) → Places → Type 0
AllButtons P p = P p.upload_button × P p.download_button × P p.chunks_button × P p.refresh_button

-- In a window with some width and height both lists are at least 200 wide and 100 high and as high as
-- each other, the one stands left of the other, and every button stands below both; the buttons stand in
-- one row without overlapping. In a window at least 430 wide the lists end inside it, and in one at
-- least 250 high beside the status bar every button ends above that.
pub layout_controls_lem :
    (width height status : ℕ)
    → 0 < width
    → 0 < height
    → (p : Places) × (layout_controls width height status ≡ some p)
      × (200 ≤ p.file_list.width)
      × (200 ≤ p.node_list.width)
      × (100 ≤ p.file_list.height)
      × (p.node_list.height ≡ p.file_list.height)
      × IsLeftOf p.file_list p.node_list
      × AllButtons (IsAbove p.file_list) p
      × AllButtons (IsAbove p.node_list) p
      × AllButtons (λ b. b.y ≡ p.upload_button.y) p
      × IsLeftOf p.upload_button p.download_button
      × IsLeftOf p.download_button p.chunks_button
      × IsLeftOf p.chunks_button p.refresh_button
      × (430 ≤ width → p.node_list.x + p.node_list.width ≤ width)
      × (250 + status ≤ height → AllButtons (λ b. b.y + b.height + status ≤ height) p)
unfolding layout_controls places button
layout_controls_lem width height status hw hh =
    let left = at_least_lem 200 ((width - 30) / 2) in
    let right = at_least_lem 200 (width - (10 + at_least 200 ((width - 30) / 2) + 10) - 10) in
    let high = at_least_lem 100 (height - status - 150) in
    let shown : (width == 0 || height == 0) ≡ false = ground (arith, hw, hh) in
    let below : 50 + at_least 100 (height - status - 150)
        < 50 + at_least 100 (height - status - 150) + 10 =
      omega arith in
    (
      places width height status,
      rw shown refl,
      left.0,
      right.0,
      high.0,
      refl,
      omega arith,
      (below, below, below, below),
      (below, below, below, below),
      (refl, refl, refl, refl),
      omega arith,
      omega arith,
      omega arith,
      λ wide. ground (arith, wide, left.2, right.2),
      λ tall.
          let inside : 50 + at_least 100 (height - status - 150) + 10 + 25 + status ≤ height =
            ground (arith, tall, high.2) in
          (inside, inside, inside, inside),
    )
