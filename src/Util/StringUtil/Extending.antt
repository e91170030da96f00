-- ===== src/Util/StringUtil/Extending.antt =====
-- `extend` and `extend_any` of network/util/string.hpp: what stands between two marks
-- is replaced by what a function gives for it. The function returns nothing where it gives false.
pub mod Ending
use network_core.Common.{
  ℕ, zero, suc, ◌+◌, ◌-◌, ◌<◌, ◌≤◌, ◌≡◌, refl, sym, ap, subst, ◌∙◌, Bool, true, false, not, ◌&&◌,
  Option, none, some, List, [], ◌∷◌, ◌++◌, ltb, ◌==◌, if◌then◌else◌, length, take, drop,
  length-append, length-take, length-drop, arith, Bool-cases, inl, inr,
}

-- `std::string::find`, for a string at a place or behind it
unfoldable pub starts : List ℕ → List ℕ → Bool
starts [] s = true
starts (c ∷ mark) [] = false
starts (c ∷ mark) (d ∷ s) = (c == d) && starts mark s

unfoldable pub shift : ℕ → Option ℕ → Option ℕ
shift k none = none
shift k (some p) = some (k + p)

unfoldable pub find_in : List ℕ → List ℕ → Option ℕ
unfolding starts shift
find_in mark [] = if starts mark [] then some 0 else none
find_in mark (c ∷ s) =
    let rest = find_in mark s in if starts mark (c ∷ s) then some 0 else shift 1 rest

unfoldable pub find_from : List ℕ → ℕ → List ℕ → Option ℕ
unfolding find_in
find_from mark offset s =
    if ltb (length s) offset then none else shift offset (find_in mark (drop offset s))

-- `substr` with a count that wraps round below 0, and is then larger than any string
unfoldable pub between : ℕ → ℕ → List ℕ → List ℕ
between begin_pos end_pos s =
    if ltb end_pos begin_pos
    then drop begin_pos s
    else take (end_pos - begin_pos) (drop begin_pos s)

-- the string, the offset, which is none for `npos`, and the result
pub record Extended : Type 0 where
  pub str : List ℕ
  pub offset : Option ℕ
  pub ok : Bool

module _ (begin_extend end_extend : List ℕ) (extend_func : List ℕ → Option (List ℕ)) where
  unfoldable pub replaced : List ℕ → ℕ → ℕ → Option (List ℕ) → Extended
  replaced s pos end_pos none = record {
    str = s;
    offset = some (end_pos + length end_extend);
    ok = false;
  }
  replaced s pos end_pos (some prop) = record {
    str = take pos s ++ (prop ++ drop (end_pos + length end_extend) s);
    offset = some (pos + length prop);
    ok = true;
  }

  unfoldable pub at_end : List ℕ → ℕ → Option ℕ → Extended
  unfolding between replaced
  at_end s pos none = record { str = s; offset = none; ok = false }
  at_end s pos (some end_pos) =
      replaced s pos end_pos (extend_func (between (pos + length begin_extend) end_pos s))

  unfoldable pub at_begin : List ℕ → Option ℕ → Extended
  unfolding find_from at_end
  at_begin s none = record { str = s; offset = none; ok = false }
  at_begin s (some pos) = at_end s pos (find_from end_extend pos s)

  unfoldable pub internal_extend : List ℕ → ℕ → Extended
  unfolding find_from at_begin
  internal_extend s offset = at_begin s (find_from begin_extend offset s)

  unfoldable pub extend : List ℕ → List ℕ × Bool
  unfolding internal_extend
  extend s = let r = internal_extend s 0 in (r.str, r.ok)

  -- the loop; none is a loop of the model that ran out of fuel
  unfoldable pub extend_any_loop : ℕ → List ℕ → Option ℕ → Bool → Option (List ℕ × Bool)
  unfolding internal_extend
  extend_any_loop fuel s none any = some (s, any)
  extend_any_loop zero s (some offset) any = none
  extend_any_loop (suc fuel) s (some offset) any =
      let r = internal_extend s offset in
      extend_any_loop fuel r.str r.offset (if r.ok then true else any)

  unfoldable pub extend_any : ℕ → List ℕ → Option (List ℕ × Bool)
  unfolding extend_any_loop
  extend_any fuel s = extend_any_loop fuel s (some 0) false
