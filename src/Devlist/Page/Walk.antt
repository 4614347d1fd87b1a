-- ===== src/Devlist/Page/Walk.antt =====
-- main/ws_bridge.cpp, cmd_device_list_page: a page is a run of the live devices in the order of their addresses.
use zhac_mono_core.Prelude.{
  ℕ, zero, suc, ◌+◌, ◌≤◌, ◌<◌, ◌≡◌, ◌≢◌, refl, ◌∙◌, sym, inl, inr, Bool, true, false, ◌&&◌, some,
  List, [], ◌∷◌, ◌++◌, arith, ltb, leb, if◌then◌else◌, length, get_elem?, All, Bool-cases,
  Option-cases, append-nil, append_assoc, length-append,
}
use zhac_mono_core.Devlist.Next.{devlist_next}
use zhac_mono_core.Devlist.Next.Order.{IsNext, devlist_next-IsNext}
use zhac_mono_core.Devlist.Escape.Row.{devlist_row-length, devlist_row_pos}
use zhac_mono_core.Devlist.Page.{
  Zap, IsZap, live, format_device_row, page_from, page_cap, tail_cap, row_fits,
}

module _ (zap : Zap) (pool : List zap.Device) where
  -- `d` is the live device of least address above `a`.
  abbrev pub Follows : ℕ → zap.Device → Type 0
  Follows a d =
      (i : ℕ) × (get_elem? pool i ≡ some d)
      × (live zap d ≡ true)
      × (a < zap.ieee_addr d)
      × All (λ e. live zap e ≡ true → a < zap.ieee_addr e → zap.ieee_addr d ≤ zap.ieee_addr e) pool

  -- The devices from the address `a` on, each the next after the one before; the last has the address `b`.
  abbrev pub Walk : ℕ → List zap.Device → ℕ → Type 0
  Walk a [] b = a ≡ b
  Walk a (d ∷ ds) b = Follows a d × Walk (zap.ieee_addr d) ds b

  -- No live device has an address above `b`.
  abbrev pub Exhausted : ℕ → Type 0
  Exhausted b = All (λ d. live zap d ≡ true → zap.ieee_addr d ≤ b) pool

-- The rows of a list of devices, a comma before each but the first of the page.
unfoldable pub rows_text : (zap : Zap) → Bool → List zap.Device → List ℕ
rows_text zap is_first [] = []
rows_text zap is_first (d ∷ ds) = format_device_row zap d is_first ++ rows_text zap false ds

-- How many live devices have an address above `a`.
pub above : (zap : Zap) → ℕ → List zap.Device → ℕ
above zap a [] = 0
above zap a (d ∷ ds) = (if live zap d && ltb a (zap.ieee_addr d) then 1 else 0) + above zap a ds

pub above_mono :
    (zap : Zap) (a b : ℕ) (ds : List zap.Device) → a ≤ b → above zap b ds ≤ above zap a ds
unfolding above
above_mono zap a b [] h = omega arith
above_mono zap a b (d ∷ ds) h = ground (arith, above_mono zap a b ds h)

pub above_lt :
    (zap : Zap) (a : ℕ) (d : zap.Device) (ds : List zap.Device) (i : ℕ)
    → get_elem? ds i ≡ some d
    → live zap d ≡ true
    → a < zap.ieee_addr d
    → above zap (zap.ieee_addr d) ds < above zap a ds
unfolding above
above_lt zap a d [] i e l h = absurd (cc)
above_lt zap a d (x ∷ ds) zero e l h =
    ground (arith, above_mono zap a (zap.ieee_addr d) ds (omega arith))
above_lt zap a d (x ∷ ds) (suc i) e l h = ground (arith, above_lt zap a d ds i e l h)

pub above-le-length : (zap : Zap) (a : ℕ) (ds : List zap.Device) → above zap a ds ≤ length ds
unfolding above
above-le-length zap a [] = omega arith
above-le-length zap a (d ∷ ds) = ground (arith, above-le-length zap a ds)

-- Each row is of 1 to 612 bytes.
pub length-format_device_row :
    (zap : Zap)
    → IsZap zap
    → (d : zap.Device) (is_first : Bool)
    → (0 < length (format_device_row zap d is_first))
      × (length (format_device_row zap d is_first) ≤ 612)
unfolding format_device_row
length-format_device_row zap law d is_first = (
  devlist_row_pos _ is_first,
  devlist_row-length _ is_first (law.nwk_small d) (law.lqi_small d) (law.eps_small d)
      (law.seen_short d) (law.battery_short d),
)

pub format_device_row-row_fits :
    (zap : Zap)
    → IsZap zap
    → (d : zap.Device) (is_first : Bool) → row_fits (format_device_row zap d is_first) ≡ true
format_device_row-row_fits zap law d is_first =
    let (pos, short) = length-format_device_row zap law d is_first in ground arith

-- What a page loop returns: the rows it added, and why it stopped.
pub record IsPage (zap : Zap) (pool : List zap.Device) (is_first : Bool) (out : List ℕ) (after : ℕ)
    (r : List ℕ × Bool × ℕ) : Type 0 where
  pub sent : List zap.Device
  pub text : r.0 ≡ out ++ rows_text zap is_first sent
  pub walk : Walk zap pool after sent r.2
  pub ends : r.1 ≡ false → Exhausted zap pool r.2
  pub full : r.1 ≡ true → (above zap r.2 pool ≢ 0) × (page_cap ≤ length r.0 + 612 + tail_cap)
  pub small : length out + tail_cap < page_cap → length r.0 + tail_cap < page_cap

module _ (zap : Zap) (law : IsZap zap) (pool : List zap.Device) where
  page_from-next :
      (fuel : ℕ) (out : List ℕ) (is_first : Bool) (last : ℕ)
      → above zap last pool < fuel
      → (r : List ℕ × Bool × ℕ) × (page_from zap fuel pool out is_first last ≡ some r)
        × IsPage zap pool is_first out last r
  unfolding page_from rows_text
  page_from-next zero out is_first last h = absurd (omega arith)
  page_from-next (suc fuel) out is_first last h =
      let spec = devlist_next-IsNext zap.ieee_addr (live zap) pool last in
      elim (Option-cases (devlist_next zap.ieee_addr (live zap) pool last)) [
        | inl e ↦
            let over : Exhausted zap pool last = rw e at spec in
            (
              (out, false, last),
              rw (page_from, e) refl,
              record {
                sent = [];
                text = sym (append-nil out);
                walk = refl;
                ends = λ s. over;
                full = λ s. absurd (cc);
                small = λ s. s;
              },
            )
        | inr (i, e) ↦
            let found : IsNext zap.ieee_addr (live zap) pool last (some i) = rw e at spec in
            let (d, at_i, l, a, least) = found in
            let row = format_device_row zap d is_first in
            let fits = format_device_row-row_fits zap law d is_first in
            let (pos, short) = length-format_device_row zap law d is_first in
            let fewer = above_lt zap last d pool i at_i l a in
            elim (Bool-cases (leb page_cap (length out + length row + tail_cap))) [
              | inl over ↦ (
                (out, true, last),
                rw (page_from, e, at_i, fits, over) refl,
                record {
                  sent = [];
                  text = sym (append-nil out);
                  walk = refl;
                  ends = λ s. absurd (cc);
                  full = λ s. (λ z. absurd (omega arith), ground arith);
                  small = λ s. s;
                },
              )
              | inr room ↦
                  let (r, run, page) =
                    page_from-next fuel (out ++ row) false (zap.ieee_addr d) (omega arith) in
                  (
                    r,
                    rw (page_from, e, at_i, fits, room) run,
                    record {
                      sent = d ∷ page.sent;
                      text = page.text ∙ append_assoc out row (rows_text zap false page.sent);
                      walk = ((i, at_i, l, a, least), page.walk);
                      ends = page.ends;
                      full = page.full;
                      small = λ s. page.small (ground (arith, length-append out row));
                    },
                  )
            ]
      ]

  -- With a round for each device and one more the loop of cmd_device_list_page ends. It has added the rows of a run
  -- of live devices, each the one of least address above the one before, the first above the cursor `last`. Where it
  -- says that no page follows, no live device is left above the run; where it says that one follows, one is left and
  -- the page is full to within a row; and a page that was open with room for its tail is closed with room for it.
  pub page_from-IsPage :
      (out : List ℕ) (is_first : Bool) (last : ℕ)
      → (r : List ℕ × Bool × ℕ) × (page_from zap (length pool + 1) pool out is_first last ≡ some r)
        × IsPage zap pool is_first out last r
  page_from-IsPage out is_first last =
      page_from-next (length pool + 1) out is_first last
        (omega (arith, above-le-length zap last pool))
