-- ===== src/Rinetd/Rules.antt =====
-- The rules of peer/peer_rinetd.c: `rinetd_add_rule` and `rinetd_remove_rule`.
use ai_ppdb.Base.{
  ℕ, zero, suc, ◌+◌, ◌-◌, ◌≤◌, ◌<◌, ◌≡◌, refl, ◌↔◌, Bool, true, false, List, [], ◌∷◌, Option, none,
  some, arith, length, length-set, get_or, set, bytes_eq_iff, leb, ◌==◌, if◌then◌else◌, if_split,
  subst,
}
use ai_ppdb.Base.Int.{ℤ, pos, negsuc, eqb_ℤ_iff}
use ai_ppdb.Error.{InfraError, ok, exists}
use ai_ppdb.Rinetd.{
  Rule, Context, zero_rule, has_source, rinetd_add_rule, rinetd_remove_rule, disable,
}

-- No two enabled rules of the first slots listen on one address and port.
abbrev pub UniqueSources : List Rule → ℕ → Type 0
UniqueSources rules zero = Unit {0}
UniqueSources [] (suc n) = Unit {0}
UniqueSources (r ∷ rules) (suc n) =
    (r.enabled ≡ true → has_source r rules n ≡ false) × UniqueSources rules n

pub record RulesValid (c : Context) : Type 0 where
  pub width : length c.rules ≡ 32
  pub bound : c.rule_count ≤ 32
  pub unique : UniqueSources c.rules c.rule_count

has_source-set :
    (x new : Rule) (rules : List Rule) (n : ℕ)
    → n < length rules
    → has_source x rules n ≡ false
    → (new.enabled ≡ true → ¬ ((new.src_port ≡ x.src_port) × (new.src_addr ≡ x.src_addr)))
    → has_source x (set rules n new) (suc n) ≡ false
unfolding has_source
has_source-set x new [] n h e d = absurd (omega arith)
has_source-set x new (r ∷ rules) zero h e d =
    ground (arith, eqb_ℤ_iff new.src_port x.src_port, bytes_eq_iff new.src_addr x.src_addr)
has_source-set x new (r ∷ rules) (suc n) h e d =
    let tail : has_source x rules n ≡ false = ground arith in
    let rest = has_source-set x new rules n (omega arith) tail d in ground (arith, rest)

UniqueSources-set :
    (new : Rule) (rules : List Rule) (n : ℕ)
    → n < length rules
    → UniqueSources rules n
    → has_source new rules n ≡ false
    → UniqueSources (set rules n new) (suc n)
unfolding has_source
UniqueSources-set new [] n h u e = absurd (omega arith)
UniqueSources-set new (r ∷ rules) zero h u e = (λ on. refl, tt)
UniqueSources-set new (r ∷ rules) (suc n) h u e =
    let tail : has_source new rules n ≡ false = ground arith in
    (
      λ on. has_source-set r new rules n (omega arith) (u.0 on) (λ new_on same.
          ground (arith, eqb_ℤ_iff r.src_port new.src_port, bytes_eq_iff r.src_addr new.src_addr)),
      UniqueSources-set new rules n (omega arith) u.1 tail,
    )

has_source-disable :
    (x : Rule) (rules : List Rule) (i n : ℕ)
    → has_source x rules n ≡ false
    → has_source x (disable i rules) n ≡ false
unfolding has_source
has_source-disable x [] i n e = e
has_source-disable x (r ∷ rules) i zero e = refl
has_source-disable x (r ∷ rules) zero (suc n) e = ground arith
has_source-disable x (r ∷ rules) (suc i) (suc n) e =
    let tail : has_source x rules n ≡ false = ground arith in
    ground (arith, has_source-disable x rules i n tail)

UniqueSources-disable :
    (rules : List Rule) (i n : ℕ) → UniqueSources rules n → UniqueSources (disable i rules) n
UniqueSources-disable [] i n u = u
UniqueSources-disable (r ∷ rules) i zero u = tt
UniqueSources-disable (r ∷ rules) zero (suc n) u = (λ on. absurd (ground arith), u.1)
UniqueSources-disable (r ∷ rules) (suc i) (suc n) u =
    (λ on. has_source-disable r rules i n (u.0 on), UniqueSources-disable rules i n u.1)

has_source-fewer :
    (x : Rule) (rules : List Rule) (n : ℕ)
    → has_source x rules (suc n) ≡ false
    → has_source x rules n ≡ false
unfolding has_source
has_source-fewer x [] zero e = refl
has_source-fewer x [] (suc n) e = refl
has_source-fewer x (r ∷ rules) zero e = refl
has_source-fewer x (r ∷ rules) (suc n) e =
    let tail : has_source x rules (suc n) ≡ false = ground arith in
    ground (arith, has_source-fewer x rules n tail)

UniqueSources-fewer :
    (rules : List Rule) (n : ℕ) → UniqueSources rules (suc n) → UniqueSources rules n
UniqueSources-fewer [] zero u = tt
UniqueSources-fewer [] (suc n) u = tt
UniqueSources-fewer (r ∷ rules) zero u = tt
UniqueSources-fewer (r ∷ rules) (suc n) u =
    (λ on. has_source-fewer r rules n (u.0 on), UniqueSources-fewer rules n u.1)

added-RulesValid :
    (rule : Rule) (c : Context)
    → RulesValid c
    → c.rule_count < 32
    → has_source rule c.rules c.rule_count ≡ false
    → RulesValid (record c { rules = set c.rules c.rule_count rule; rule_count = c.rule_count + 1 })
added-RulesValid rule c v room absent =
    let next : suc c.rule_count ≡ c.rule_count + 1 = omega arith in
    record {
      width = omega (arith, length-set c.rules c.rule_count rule, v.width);
      bound = omega arith;
      unique =
          subst (UniqueSources (set c.rules c.rule_count rule)) next
            (UniqueSources-set rule c.rules c.rule_count (omega (arith, v.width)) v.unique absent);
    }

abbrev After : InfraError × Context → Type 0
After r = RulesValid r.1

-- Adding a rule, whatever the rule and the result, keeps the rules valid: at most 32, and no
-- two enabled ones with one source address and port.
pub rinetd_add_rule-RulesValid :
    (rule : Option Rule) (c : Context) → RulesValid c → RulesValid (rinetd_add_rule rule c).1
unfolding rinetd_add_rule
rinetd_add_rule-RulesValid none c v = v
rinetd_add_rule-RulesValid (some rule) c v =
    if_split After (leb 32 c.rule_count) _ _ (λ full. v)
      (λ room.
        if_split After (has_source rule c.rules c.rule_count) _ _ (λ there. v)
          (added-RulesValid rule c v (ground arith)))

pred_suc : (n : ℕ) → n ≡ suc n - 1
pred_suc n = omega arith

UniqueSources-last :
    (rules : List Rule) (b : Bool) (n : ℕ)
    → UniqueSources rules n
    → UniqueSources rules (if b then n - 1 else n)
UniqueSources-last rules true zero u = tt
UniqueSources-last rules false zero u = tt
UniqueSources-last rules true (suc n) u =
    subst (UniqueSources rules) (pred_suc n) (UniqueSources-fewer rules n u)
UniqueSources-last rules false (suc n) u = u

removed-RulesValid :
    (c : Context) (i : ℕ) (b : Bool)
    → RulesValid c
    → RulesValid (record c {
      rules = disable i c.rules;
      rule_count = if b then c.rule_count - 1 else c.rule_count;
    })
removed-RulesValid c i b v =
    let off = record (get_or c.rules i zero_rule) { enabled = false } in
    record {
      width = omega (arith, length-set c.rules i off, v.width);
      bound = ground (arith, v.bound);
      unique =
          UniqueSources-last (disable i c.rules) b c.rule_count
            (UniqueSources-disable c.rules i c.rule_count v.unique);
    }

-- Removing a rule, whatever the index and the result, keeps the rules valid: at most 32, and no
-- two enabled ones with one source address and port.
pub rinetd_remove_rule-RulesValid :
    (index : ℤ) (c : Context) → RulesValid c → RulesValid (rinetd_remove_rule index c).1
unfolding rinetd_remove_rule
rinetd_remove_rule-RulesValid (negsuc n) c v = v
rinetd_remove_rule-RulesValid (pos index) c v =
    if_split After (leb c.rule_count index) _ _ (λ beyond. v)
      (λ inside.
        if_split After c.running _ _ (λ busy. v)
          (λ idle. removed-RulesValid c index (index == c.rule_count - 1) v))

has_source_self :
    (rule : Rule) (rules : List Rule) (n : ℕ)
    → n < length rules
    → rule.enabled ≡ true
    → has_source rule (set rules n rule) (suc n) ≡ true
unfolding has_source
has_source_self rule [] n h on = absurd (omega arith)
has_source_self rule (r ∷ rules) zero h on =
    ground
      (arith, on, eqb_ℤ_iff rule.src_port rule.src_port, bytes_eq_iff rule.src_addr rule.src_addr)
has_source_self rule (r ∷ rules) (suc n) h on =
    ground (arith, has_source_self rule rules n (omega arith) on)

-- A rule is added exactly if it is given, a slot is free and no enabled rule has its source.
pub rinetd_add_rule-ok :
    (rule : Rule) (c : Context)
    → ((rinetd_add_rule (some rule) c).0 ≡ ok)
      ↔ ((c.rule_count < 32) × (has_source rule c.rules c.rule_count ≡ false))
unfolding rinetd_add_rule
rinetd_add_rule-ok rule c = ground arith

-- On valid rules with two free slots, adding an enabled rule that was just added is refused as
-- existing and changes nothing.
pub rinetd_add_rule-twice :
    (rule : Rule) (c : Context)
    → RulesValid c
    → rule.enabled ≡ true
    → (rinetd_add_rule (some rule) c).0 ≡ ok
    → c.rule_count + 1 < 32
    → rinetd_add_rule (some rule) (rinetd_add_rule (some rule) c).1
      ≡ (exists, (rinetd_add_rule (some rule) c).1)
unfolding rinetd_add_rule
rinetd_add_rule-twice rule c v on e room =
    let next : suc c.rule_count ≡ c.rule_count + 1 = omega arith in
    let found = has_source_self rule c.rules c.rule_count (omega (arith, v.width)) on in
    let there : has_source rule (set c.rules c.rule_count rule) (c.rule_count + 1) ≡ true =
      cc (found, next) in
    ground (arith, there)
