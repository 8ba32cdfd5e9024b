-- ===== src/HttpUtil/Host/Address.antt =====
-- What `onyx_is_ipv4_loopback` accepts.
use onyx_engine.Prelude.{
  ℕ, zero, suc, ◌+◌, ◌-◌, ◌*◌, ◌≤◌, ◌≡◌, ◌≢◌, refl, sym, ap, subst, ◌∙◌, ◌⊎◌, inl, inr, Bool, true,
  false, not, ◌&&◌, ◌||◌, [], ◌∷◌, ◌++◌, length, drop, append-nil, arith, ltb, ◌==◌, if◌then◌else◌,
  Bool-cases,
}
use onyx_engine.Prelude.Bytes.{Bytes}
use onyx_engine.HttpUtil.Host.{
  is_digit, read_octet, after_octet, octets_from, onyx_is_ipv4_loopback,
}

-- The number that digits stand for, behind those whose value is `v`.
unfoldable pub decimal : ℕ → Bytes → ℕ
decimal v [] = v
decimal v (c ∷ s) = decimal (v * 10 + (c - 48)) s

pub data Digits : Bytes → Type 0 where
  no_digits : Digits []
  digit : {s : Bytes} (c : ℕ) → is_digit c ≡ true → Digits s → Digits (c ∷ s)

-- One to three digits with a value of at most 255.
pub record IsOctet (o : Bytes) : Type 0 where
  pub digits : Digits o
  pub nonempty : o ≢ []
  pub short : length o ≤ 3
  pub small : decimal 0 o ≤ 255

-- What `read_octet` takes off the front.
record Taken (k v : ℕ) (s : Bytes) : Type 0 where
  o : Bytes
  split : s ≡ o ++ (read_octet k v s).1.1
  are_digits : Digits o
  count : length o ≡ (read_octet k v s).0
  value : decimal v o ≡ (read_octet k v s).1.0
  bound : length o ≤ k

read_octet-Taken : (k v : ℕ) (s : Bytes) → Taken k v s
unfolding read_octet decimal
read_octet-Taken zero v s = record {
  o = [];
  split = refl;
  are_digits = no_digits;
  count = refl;
  value = refl;
  bound = omega arith;
}
read_octet-Taken (suc k) v [] = record {
  o = [];
  split = refl;
  are_digits = no_digits;
  count = refl;
  value = refl;
  bound = omega arith;
}
read_octet-Taken (suc k) v (c ∷ s) =
    let t : Taken k (v * 10 + (c - 48)) s = read_octet-Taken k (v * 10 + (c - 48)) s in
    elim (Bool-cases (is_digit c)) [
      | inl e ↦ record {
        o = c ∷ t.o;
        split = rw (e, read_octet) (ap (λ (u : Bytes). c ∷ u) t.split);
        are_digits = digit c e t.are_digits;
        count = rw (e, read_octet) (ap (λ (n : ℕ). suc n) t.count);
        value = rw (e, read_octet) t.value;
        bound = omega (arith, t.bound);
      }
      | inr e ↦ record {
        o = [];
        split = rw (e, read_octet) refl;
        are_digits = no_digits;
        count = rw (e, read_octet) refl;
        value = rw (e, read_octet) refl;
        bound = omega arith;
      }
    ]

-- Octets with dots between them.
pub data Dotted : ℕ → Bytes → Type 0 where
  last : {o : Bytes} → IsOctet o → Dotted 1 o
  dot : {n : ℕ} {o s : Bytes} → IsOctet o → Dotted n s → Dotted (suc n) (o ++ (46 ∷ s))

-- A round of the loop that does not refuse: the octet it read, and what is left to test.
record Round (fuel octets : ℕ) (s : Bytes) : Type 0 where
  o : Bytes
  rest : Bytes
  split : s ≡ o ++ rest
  octet : IsOctet o
  first : octets ≡ 0 → decimal 0 o ≡ 127
  after : after_octet (octets + 1) rest (octets_from fuel (octets + 1) (drop 1 rest)) ≡ true

not_refused :
    (n v octets : ℕ) (b : Bool)
    → (if n == 0 || ltb 255 v || (octets == 0 && not (v == 127)) then false else b) ≡ true
    → (n ≢ 0) × ((v ≤ 255) × (((octets ≡ 0) → v ≡ 127) × (b ≡ true)))
not_refused n v octets b h = (ground arith, (ground arith, (ground arith, ground arith)))

length-nil : (o : Bytes) (n : ℕ) → length o ≡ n → n ≢ 0 → o ≢ []
length-nil [] n e h q = h (sym e)
length-nil (c ∷ o) n e h q = absurd (cc)

octets_from-Round :
    (fuel octets : ℕ) (s : Bytes) → octets_from (suc fuel) octets s ≡ true → Round fuel octets s
unfolding octets_from
octets_from-Round fuel octets s h = record {
  o = t.o;
  rest = r.1.1;
  split = t.split;
  octet = record {
    digits = t.are_digits;
    nonempty = length-nil t.o r.0 t.count c.0;
    short = t.bound;
    small = omega (arith, t.value, c.1.0);
  };
  first = λ z. t.value ∙ c.1.1.0 z;
  after = c.1.1.1;
}
  where
    t : Taken 3 0 s
    t = read_octet-Taken 3 0 s

    r : ℕ × (ℕ × Bytes)
    r = read_octet 3 0 s

    c :
        (r.0 ≢ 0)
        × ((r.1.0 ≤ 255)
            × (((octets ≡ 0) → r.1.0 ≡ 127)
                × (after_octet (octets + 1) r.1.1 (octets_from fuel (octets + 1) (drop 1 r.1.1))
                    ≡ true)))
    c = not_refused r.0 r.1.0 octets _ h

after_octet-cases :
    (k : ℕ) (rest : Bytes) (next : Bool)
    → after_octet k rest next ≡ true
    → ((rest ≡ []) × (k ≡ 4)) ⊎ ((rest ≡ 46 ∷ drop 1 rest) × ((k ≢ 4) × (next ≡ true)))
unfolding after_octet
after_octet-cases k [] next h = inl (refl, ground arith)
after_octet-cases k (c ∷ rest) next h =
    inr (ap (λ (d : ℕ). d ∷ rest) (dot_byte), (ground arith, ground arith))
  where
    dot_byte : c ≡ 46
    dot_byte = ground arith

none_left : (fuel octets : ℕ) → octets + suc fuel ≡ 4 → octets + 1 ≡ 4 → 0 ≡ fuel
none_left fuel octets e k = omega arith

octets_from-Dotted :
    (fuel octets : ℕ) (s : Bytes)
    → octets + fuel ≡ 4
    → octets_from fuel octets s ≡ true
    → Dotted fuel s
unfolding octets_from
octets_from-Dotted zero octets s e h = absurd (cc)
octets_from-Dotted (suc fuel) octets s e h =
    elim (after_octet-cases (octets + 1) r.rest _ r.after) [
      | inl (q, k) ↦
          subst (λ (x : Bytes). Dotted (suc fuel) x)
            (sym (r.split ∙ (ap (λ (u : Bytes). r.o ++ u) q ∙ append-nil r.o)))
            (subst (λ (n : ℕ). Dotted (suc n) r.o) (none_left fuel octets e k) (last r.octet))
      | inr (q, (k, n)) ↦
          subst (λ (x : Bytes). Dotted (suc fuel) x)
            (sym (r.split ∙ ap (λ (u : Bytes). r.o ++ u) q))
            (dot r.octet
              (octets_from-Dotted fuel (octets + 1) (drop 1 r.rest) (omega (arith, e)) n))
    ]
  where
    r : Round fuel octets s
    r = octets_from-Round fuel octets s h

-- A name that passes for an IPv4 loopback address is one: four octets of one to three digits, each at
-- most 255, with single dots between them and nothing before or behind, the first with the value 127.
pub onyx_is_ipv4_loopback-Dotted :
    (s : Bytes)
    → onyx_is_ipv4_loopback s ≡ true
    → Dotted 4 s
      × ((o : Bytes) × ((rest : Bytes) × ((s ≡ o ++ rest) × (IsOctet o × (decimal 0 o ≡ 127)))))
unfolding onyx_is_ipv4_loopback
onyx_is_ipv4_loopback-Dotted s h =
    let r : Round 3 0 s = octets_from-Round 3 0 s h in
    (octets_from-Dotted 4 0 s refl h, (r.o, (r.rest, (r.split, (r.octet, r.first refl)))))
