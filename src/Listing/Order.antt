-- ===== src/Listing/Order.antt =====
-- The order of the listing is total: an absent sort time last, then by the sort time and the subject.
use tmdb_mteam_hub.Common.{
  IsOrder, Option, Text, [], arith, false, none, refl, some, text_lt, true, ℕ, ◌↔◌, ◌∷◌, ◌≡◌,
}
use tmdb_mteam_hub.Listing.{key_before, later_time, same_time}

text_lt-asym : (s t : Text) → text_lt s t ≡ true → text_lt t s ≡ false
unfolding text_lt
text_lt-asym [] [] h = refl
text_lt-asym [] (d ∷ t) h = refl
text_lt-asym (c ∷ s) [] h = cc
text_lt-asym (c ∷ s) (d ∷ t) h = ground (arith, text_lt-asym s t)

text_lt-between : (s m t : Text) → text_lt s t ≡ true → text_lt s m ≡ false → text_lt m t ≡ true
unfolding text_lt
text_lt-between [] [] t h k = h
text_lt-between [] (b ∷ m) t h k = cc
text_lt-between (c ∷ s) m [] h k = cc
text_lt-between (c ∷ s) [] (d ∷ t) h k = refl
text_lt-between (c ∷ s) (b ∷ m) (d ∷ t) h k = ground (arith, text_lt-between s m t)

text_lt-equal : (s t : Text) → text_lt s t ≡ false → text_lt t s ≡ false → s ≡ t
unfolding text_lt
text_lt-equal [] [] h k = refl
text_lt-equal [] (d ∷ t) h k = cc
text_lt-equal (c ∷ s) [] h k = cc
text_lt-equal (c ∷ s) (d ∷ t) h k = ground (arith, text_lt-equal s t)

later_time-asym : (a b : Option ℕ) → later_time a b ≡ true → later_time b a ≡ false
unfolding later_time
later_time-asym none b h = cc
later_time-asym (some a) none h = refl
later_time-asym (some a) (some b) h = ground arith

-- Two times are ordered, or the same.
same_time_iff : (a b : Option ℕ) → (same_time a b ≡ true) ↔ (a ≡ b)
unfolding same_time
same_time_iff none none = ground arith
same_time_iff none (some b) = ground arith
same_time_iff (some a) none = ground arith
same_time_iff (some a) (some b) = ground arith

later_time_irrefl : (a : Option ℕ) → later_time a a ≡ false
unfolding later_time
later_time_irrefl none = refl
later_time_irrefl (some a) = ground arith

later_time-between :
    (a b c : Option ℕ) → later_time a c ≡ true → later_time a b ≡ false → later_time b c ≡ true
unfolding later_time
later_time-between none b c h k = cc
later_time-between (some a) none c h k = cc
later_time-between (some a) (some b) none h k = refl
later_time-between (some a) (some b) (some c) h k = ground arith

later_time-equal : (a b : Option ℕ) → later_time a b ≡ false → later_time b a ≡ false → a ≡ b
unfolding later_time
later_time-equal none none h k = refl
later_time-equal none (some b) h k = cc
later_time-equal (some a) none h k = cc
later_time-equal (some a) (some b) h k = ground arith

pub key_before-IsOrder : IsOrder key_before
unfolding key_before
key_before-IsOrder = record {
  asym = λ a b h. ground (
    arith,
    later_time-asym a.douban_sort_time b.douban_sort_time,
    later_time_irrefl a.douban_sort_time,
    same_time_iff a.douban_sort_time b.douban_sort_time,
    same_time_iff b.douban_sort_time a.douban_sort_time,
    text_lt-asym b.subject_id a.subject_id,
  );
  between = λ a b c h k. ground (
    arith,
    later_time-between a.douban_sort_time b.douban_sort_time c.douban_sort_time,
    later_time-equal a.douban_sort_time b.douban_sort_time,
    same_time_iff a.douban_sort_time b.douban_sort_time,
    same_time_iff a.douban_sort_time c.douban_sort_time,
    same_time_iff b.douban_sort_time c.douban_sort_time,
    text_lt-between c.subject_id b.subject_id a.subject_id,
  );
  equal = λ a b h k. ground (
    arith,
    later_time-equal a.douban_sort_time b.douban_sort_time,
    same_time_iff a.douban_sort_time b.douban_sort_time,
    same_time_iff b.douban_sort_time a.douban_sort_time,
    text_lt-equal a.subject_id b.subject_id,
  );
}
