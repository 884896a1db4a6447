-- ===== src/Providers/Usages.antt =====
-- integrations/metering.py and integrations/usage.py, what a call adds to which quota.
use javi.Prelude.{
  ℕ, suc, ◌+◌, ◌≤◌, String, Bool, true, ◌&&◌, ◌≡◌, refl, sym, ◌∙◌, ap, str_eq, eq_iff, List, [],
  ◌∷◌, any, select, count, count-update, any-count, update_where, if◌then◌else◌, arith, Bool-cases,
  inl, inr, subst,
}
use javi.Env.{SendResult, MessageText}
use javi.Providers.{
  Usage, is_usage, add_to, get_or_create, record_usage, Store, is_messaging_metric, Metering,
  count_sent, get_messaging_provider, metering_send_text, Bucket, falls_in, sum_counts, used,
}

-- One row for each metric and period.
abbrev pub IsOneRow : List Usage → Type 0
IsOneRow rows = (metric period : String) → count (is_usage metric period) rows ≤ 1

abbrev in_bucket : Bucket → String → Usage → Bool
in_bucket b current u = falls_in b current u.metric u.period

used-cons :
    (b : Bucket) (current : String) (u : Usage) (rest : List Usage)
    → used b current (u ∷ rest)
      ≡ (if in_bucket b current u then u.count else 0) + used b current rest
unfolding used select sum_counts
used-cons b current u rest = elim (Bool-cases (in_bucket b current u)) [
  | inl inside ↦ rw inside refl
  | inr outside ↦ rw outside (omega arith)
]

added_nowhere :
    (b : Bucket) (current metric period : String) (n : ℕ) (rows : List Usage)
    → count (is_usage metric period) rows ≡ 0
    → used b current (update_where (is_usage metric period) (add_to n) rows) ≡ used b current rows
unfolding update_where count
added_nowhere b current metric period n [] h = refl
added_nowhere b current metric period n (u ∷ rest) h =
    elim (Bool-cases (is_usage metric period u)) [
      | inl own ↦ ground (arith, h, own)
      | inr other ↦
          let later = added_nowhere b current metric period n rest (ground (arith, h, other)) in
          rw (other, used-cons b current u rest)
            (used-cons b current u (update_where (is_usage metric period) (add_to n) rest)
              ∙ ap (λ k. (if in_bucket b current u then u.count else 0) + k) later)
    ]

same_bucket :
    (b : Bucket) (current metric period : String) (u : Usage)
    → is_usage metric period u ≡ true
    → falls_in b current u.metric u.period ≡ falls_in b current metric period
same_bucket b current metric period u h =
    let m : u.metric ≡ metric = (eq_iff u.metric metric).0 (ground (arith, h)) in
    let p : u.period ≡ period = (eq_iff u.period period).0 (ground (arith, h)) in cc

added_once :
    (b : Bucket) (current metric period : String) (n : ℕ) (rows : List Usage)
    → count (is_usage metric period) rows ≡ 1
    → used b current (update_where (is_usage metric period) (add_to n) rows)
      ≡ used b current rows + (if falls_in b current metric period then n else 0)
unfolding update_where count
added_once b current metric period n [] h = ground (arith, h)
added_once b current metric period n (u ∷ rest) h =
    let updated = update_where (is_usage metric period) (add_to n) rest in
    elim (Bool-cases (is_usage metric period u)) [
      | inl own ↦
          let same = same_bucket b current metric period u own in
          let later = added_nowhere b current metric period n rest (ground (arith, h, own)) in
          rw (own, used-cons b current u rest, used-cons b current (add_to n u) updated, same)
            (ground (arith, later))
      | inr other ↦
          let later = added_once b current metric period n rest (ground (arith, h, other)) in
          rw (other, used-cons b current u rest, used-cons b current u updated)
            (omega (arith, later))
    ]

any-of_count : (p : Usage → Bool) (rows : List Usage) → any p rows ≡ true → 1 ≤ count p rows
unfolding any count
any-of_count p [] h = ground (arith, h)
any-of_count p (u ∷ rest) h = ground (arith, h, any-of_count p rest)

abbrev new_usage : String → String → Usage
new_usage metric period = record { metric = metric; period = period; count = 0 }

is_usage-new_usage :
    (metric period : String) → is_usage metric period (new_usage metric period) ≡ true
is_usage-new_usage metric period =
    let m : str_eq metric metric ≡ true = (eq_iff metric metric).1 refl in
    let p : str_eq period period ≡ true = (eq_iff period period).1 refl in ground (arith, m, p)

created_once :
    (metric period : String) (rows : List Usage)
    → count (is_usage metric period) rows ≤ 1
    → count (is_usage metric period) (get_or_create metric period rows) ≡ 1
unfolding get_or_create count
created_once metric period rows h = elim (Bool-cases (any (is_usage metric period) rows)) [
  | inl found ↦ rw found (omega (arith, h, any-of_count (is_usage metric period) rows found))
  | inr missing ↦
      rw (missing, is_usage-new_usage metric period)
        (ap suc (any-count (is_usage metric period) rows missing))
]

used-get_or_create :
    (b : Bucket) (current metric period : String) (rows : List Usage)
    → used b current (get_or_create metric period rows) ≡ used b current rows
unfolding get_or_create
used-get_or_create b current metric period rows =
    elim (Bool-cases (any (is_usage metric period) rows)) [
      | inl found ↦ rw found refl
      | inr missing ↦ rw missing (
          used-cons b current (new_usage metric period) rows
          ∙ ground (arith, Bool-cases (in_bucket b current (new_usage metric period))))
    ]

pub used-record_usage :
    (b : Bucket) (current metric period : String) (n : ℕ) (rows : List Usage)
    → IsOneRow rows
    → used b current (record_usage metric n period rows)
      ≡ used b current rows + (if falls_in b current metric period then n else 0)
unfolding record_usage
used-record_usage b current metric period n rows one =
    added_once b current metric period n (get_or_create metric period rows)
      (created_once metric period rows (one metric period))
    ∙ ap (λ k. k + (if falls_in b current metric period then n else 0))
        (used-get_or_create b current metric period rows)

get_or_create-IsOneRow :
    (metric period : String) (rows : List Usage)
    → IsOneRow rows
    → IsOneRow (get_or_create metric period rows)
unfolding get_or_create count
get_or_create-IsOneRow metric period rows one other_metric other_period =
    let before = one other_metric other_period in
    elim (Bool-cases (any (is_usage metric period) rows)) [
      | inl found ↦ rw found before
      | inr missing ↦
          elim (Bool-cases (is_usage other_metric other_period (new_usage metric period))) [
            | inl own ↦
                let m : metric ≡ other_metric =
                  (eq_iff metric other_metric).0 (ground (arith, own)) in
                let p : period ≡ other_period =
                  (eq_iff period other_period).0 (ground (arith, own)) in
                let none_yet = any-count (is_usage metric period) rows missing in
                let same : count (is_usage other_metric other_period) rows
                    ≡ count (is_usage metric period) rows =
                  cc in
                rw (missing, own) (omega (arith, none_yet, same))
            | inr different ↦ rw (missing, different) before
          ]
    ]

pub record_usage-IsOneRow :
    (metric period : String) (n : ℕ) (rows : List Usage)
    → IsOneRow rows
    → IsOneRow (record_usage metric n period rows)
unfolding record_usage
record_usage-IsOneRow metric period n rows one other_metric other_period =
    subst (λ k. k ≤ 1)
      (sym (
        count-update (is_usage other_metric other_period) (is_usage metric period) (add_to n)
          (get_or_create metric period rows) (λ u. refl)))
      (get_or_create-IsOneRow metric period rows one other_metric other_period)

-- A message through the provider, where the metering is on: what is used of a quota grows by one
-- when the message went out over a channel that the quota counts, and is as it was otherwise. The
-- counters keep one row for each metric and period.
pub send_text-used :
    (m : Metering) (now : ℕ) (provider : String × MessageText → SendResult)
    (message : String × MessageText) (s : Store) (b : Bucket) (current : String)
    → m.on ≡ true
    → IsOneRow s.usage
    → let (result, after) = get_messaging_provider m now provider message s in
      let counts =
        result.succeeded
        && is_messaging_metric result.channel
        && falls_in b current result.channel (m.usage_period now) in
      (used b current after.usage ≡ used b current s.usage + (if counts then 1 else 0))
      × IsOneRow after.usage
unfolding get_messaging_provider metering_send_text count_sent
send_text-used m now provider message s b current on one =
    let result = provider message in
    let period = m.usage_period now in
    elim (Bool-cases (result.succeeded && is_messaging_metric result.channel)) [
      | inl sent ↦
          rw (on, sent)
            (
              ground (arith, sent, used-record_usage b current result.channel period 1 s.usage one),
              record_usage-IsOneRow result.channel period 1 s.usage one,
            )
      | inr not_sent ↦ rw (on, not_sent) (ground (arith, not_sent), one)
    ]
