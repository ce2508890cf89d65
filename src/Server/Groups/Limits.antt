-- ===== src/Server/Groups/Limits.antt =====
-- crates/server/src/app_groups.rs, lines 355-391: the limits and the extra time of the groups. The times
-- of creation and the ids of adjustments are left out.
use screenguard.Prelude.Sort.{sort_by}
use screenguard.Prelude.{
  eq_nat, eq_string, eq_pair, ℕ, Bool, true, false, not, ◌&&◌, ◌||◌, List, [], ◌∷◌, ◌++◌, map,
  String, ◌==◌, if◌then◌else◌, filter, leb, contains,
}
use screenguard.Prelude.Dict.{Dict, insert, get_or}
use screenguard.Prelude.Int.{ℤ, pos, negsuc, ◌+ℤ◌, leb_ℤ, is_zero, wrap_i32}

-- Rows of `app_group_limits` and `app_group_adjustments`.
pub record GroupLimit : Type 0 where
  pub profile_id : String
  pub group_id : String
  pub day_of_week : ℕ
  pub allowed_minutes : ℤ

pub record GroupAdjustment : Type 0 where
  pub profile_id : String
  pub group_id : String
  pub target_date : String
  pub minutes : ℤ

abbrev pub push_to : Dict String (List (ℕ × ℤ)) → GroupLimit → Dict String (List (ℕ × ℤ))
push_to out l =
    insert out l.group_id (get_or [] out l.group_id ++ ((l.day_of_week, l.allowed_minutes) ∷ []))

abbrev pub push_all : Dict String (List (ℕ × ℤ)) → List GroupLimit → Dict String (List (ℕ × ℤ))
push_all out [] = out
push_all out (l ∷ rows) = push_all (push_to out l) rows

-- A profile's limits per group, by day of the week.
unfoldable pub limits : List GroupLimit → String → Dict String (List (ℕ × ℤ))
limits rows profile = push_all [] (
    sort_by (λ (a b : GroupLimit). leb a.day_of_week b.day_of_week)
      (filter (λ (l : GroupLimit). l.profile_id == profile) rows))

-- A limit is refused on no day of the week, outside of a day's minutes, or twice for a day.
abbrev pub valid_limits : List ℕ → List (ℕ × ℤ) → Bool
valid_limits seen [] = true
valid_limits seen (l ∷ entries) =
    leb l.0 6
    && leb_ℤ (pos 0) l.1
    && leb_ℤ l.1 (pos 1440)
    && not (contains seen l.0)
    && valid_limits (l.0 ∷ seen) entries

abbrev pub limit_row : String → String → ℕ × ℤ → GroupLimit
limit_row profile group l = record {
  profile_id = profile;
  group_id = group;
  day_of_week = l.0;
  allowed_minutes = l.1;
}

-- The rows, and whether the limits were accepted.
unfoldable pub replace_limits :
    List GroupLimit → String → String → List (ℕ × ℤ) → List GroupLimit × Bool
replace_limits rows profile group entries =
    if valid_limits [] entries
    then (
      filter (λ (l : GroupLimit). not (l.profile_id == profile && l.group_id == group)) rows
          ++ map (limit_row profile group) entries,
      true,
    )
    else (rows, false)

unfoldable pub add_adjustment :
    List GroupAdjustment → String → String → String → ℤ → List GroupAdjustment × Bool
add_adjustment rows profile group date minutes =
    if is_zero minutes || not (leb_ℤ (negsuc 1439) minutes && leb_ℤ minutes (pos 1440))
    then (rows, false)
    else (
      rows
          ++ (record {
            profile_id = profile;
            group_id = group;
            target_date = date;
            minutes = minutes;
          }
              ∷ []),
      true,
    )

abbrev pub add_to : Dict String ℤ → GroupAdjustment → Dict String ℤ
add_to out a = insert out a.group_id (get_or (pos 0) out a.group_id +ℤ a.minutes)

abbrev pub sum_all : Dict String ℤ → List GroupAdjustment → Dict String ℤ
sum_all out [] = out
sum_all out (a ∷ rows) = sum_all (add_to out a) rows

abbrev pub as_sums : Dict String ℤ → Dict String ℤ
as_sums [] = []
as_sums ((g, m) ∷ sums) = (g, wrap_i32 m) ∷ as_sums sums

-- The sums of a profile's adjustments per group on a date, each as `i32`.
unfoldable pub adjustments : List GroupAdjustment → String → String → Dict String ℤ
adjustments rows profile date = as_sums (
    sum_all []
      (filter (λ (a : GroupAdjustment). a.profile_id == profile && a.target_date == date) rows))
