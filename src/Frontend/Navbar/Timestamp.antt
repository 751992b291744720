-- ===== src/Frontend/Navbar/Timestamp.antt =====
-- The timestamp can be read: its separators part it into the numbers it was made of.
use fapra_osm_routing.Prelude.{[], ◌∷◌, ◌++◌, ◌≡◌, ap, ◌∙◌, All-append, arith}
use fapra_osm_routing.Frontend.Text.{Text, Lacks, split}
use fapra_osm_routing.Frontend.Text.Split.{split_at_sep, split-Lacks}
use fapra_osm_routing.Frontend.Numbers.{Numbers, IsLawful}
use fapra_osm_routing.Frontend.Navbar.{Date, Navbar, date_text, time_text, get_now}

split-three :
    (c : _) (p q r : Text)
    → Lacks c p
    → Lacks c q
    → Lacks c r
    → split c (p ++ c ∷ (q ++ c ∷ r)) ≡ p ∷ q ∷ r ∷ []
split-three c p q r h k l =
    split_at_sep c p _ h
    ∙ ap (λ rest. p ∷ rest) (split_at_sep c q r k ∙ ap (λ rest. q ∷ rest) (split-Lacks c r l))

module _ {Num : Type 0} ⦃n : Numbers Num⦄ (laws : IsLawful Num) (today : Date Num) where
  date_text-Lacks : Lacks b' ' (date_text today)
  date_text-Lacks = All-append _ (n.show today.full_year) _ (laws.show-Lacks _) (
    omega arith,
    All-append _ (n.show (n.add today.month n.one)) _ (laws.show-Lacks _)
        (omega arith, laws.show-Lacks _),
  )

  time_text-Lacks : Lacks b' ' (time_text today)
  time_text-Lacks = All-append _ (n.show today.hours) _ (laws.show-Lacks _) (
    omega arith,
    All-append _ (n.show today.minutes) _ (laws.show-Lacks _) (omega arith, laws.show-Lacks _),
  )

  -- The timestamp of getNow parts at the space into the day and the time; where the texts of the
  -- numbers have no dash and no colon, the day parts at the dashes into the texts of the year, the
  -- month counted from 1 and the day of the month, and the time at the colons into hours, minutes
  -- and seconds. The text of a number is not empty and has no space.
  pub get_now-split :
      (bar : Navbar)
      → Lacks b'-' (n.show today.full_year)
      → Lacks b'-' (n.show (n.add today.month n.one))
      → Lacks b'-' (n.show today.date)
      → Lacks b':' (n.show today.hours)
      → Lacks b':' (n.show today.minutes)
      → Lacks b':' (n.show today.seconds)
      → (split b' ' (get_now today bar).timestamp ≡ date_text today ∷ time_text today ∷ [])
        × (split b'-' (date_text today)
            ≡ n.show today.full_year ∷ n.show (n.add today.month n.one) ∷ n.show today.date ∷ [])
        × (split b':' (time_text today)
            ≡ n.show today.hours ∷ n.show today.minutes ∷ n.show today.seconds ∷ [])
  unfolding get_now
  get_now-split bar y m d h i s = (
    split_at_sep b' ' (date_text today) (time_text today) date_text-Lacks
        ∙ ap (λ rest. date_text today ∷ rest) (split-Lacks b' ' (time_text today) time_text-Lacks),
    split-three b'-' _ _ _ y m d,
    split-three b':' _ _ _ h i s,
  )
