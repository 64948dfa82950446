-- ===== src/Auth/Limiter/Tracks.antt =====
-- The store of the rate limiter beside the log of an identity (auth.py, `RateLimiter.check`).
use centralized_hvac_system.Prelude.{
  ℕ, ◌+◌, ◌-◌, ◌*◌, ◌≤◌, ◌<◌, String, ◌≡◌, refl, sym, ap, ◌∙◌, not, true, false, ◌||◌, List, [],
  ◌∷◌, ◌++◌, ◌==◌, eq_iff, arith, ltb, leb, nat_eq, if◌then◌else◌, select, length, length-append,
  eq_refl, Bool-cases, inl, inr,
}
use text.Mathlib.TextLemmas.{append_cancel_left}
use centralized_hvac_system.Auth.Zset.{Zset, IsZset}
use centralized_hvac_system.Auth.Limiter.{limit_key, forget_old, check}
use centralized_hvac_system.Auth.Limiter.Live.{
  select-append, select-swap, select-every, select-cong, live, recent, recent-append,
  length-live_append,
}

module _ {Z : Type 0} ⦃zs : Zset Z⦄ (laws : IsZset Z) (uuid : ℕ → String) (window : ℕ) where
  abbrev pub span : ℕ
  span = window * 1000

  abbrev pub entries_of : String → Z → List (String × ℕ)
  entries_of u z = zs.entries (limit_key u) z

  abbrev pub left : String → Z → ℕ
  left u z = zs.life (limit_key u) z

  -- How the store of the limiter stands to the log of an identity.
  pub record Tracks (u : String) (now n : ℕ) (z : Z) (log : List (String × ℕ)) : Type 0 where
    pub same :
        (t : ℕ) → now ≤ t → length (select (live span t) (entries_of u z)) ≡ recent span u t log
    pub gone : (t : ℕ) → now + left u z ≤ t → recent span u t log ≡ 0
    pub past : (t : ℕ) → now + span ≤ t → recent span u t log ≡ 0
    pub bare : left u z ≡ 0 → entries_of u z ≡ []
    pub fresh :
        (j : ℕ) → n ≤ j → select (λ e. not (e.0 == uuid j)) (entries_of u z) ≡ entries_of u z

  pub Tracks-pass :
      (u : String) (now n d : ℕ) (z : Z) (log : List (String × ℕ))
      → Tracks u now n z log
      → Tracks u (now + d) n (zs.pass d z) log
  Tracks-pass u now n d z log h =
      let e = laws.entries-pass (limit_key u) d z in
      let l = laws.life-pass (limit_key u) d z in
      elim (Bool-cases (nat_eq (left u z) 0 || ltb d (left u z))) [
        | inl kept ↦
            let e' : entries_of u (zs.pass d z) ≡ entries_of u z = rw kept at e in
            record {
              same = λ t i. rw e' (h.same t (omega arith));
              gone = λ t i. h.gone t (omega (arith, l, i));
              past = λ t i. h.past t (omega arith);
              bare = λ i. rw e' (h.bare (ground arith));
              fresh = λ j i. rw e' (h.fresh j i);
            }
        | inr lost ↦
            let e' : entries_of u (zs.pass d z) ≡ [] = rw lost at e in
            let over : left u z ≤ d = ground arith in
            record {
              same = λ t i. rw e' (sym (h.gone t (omega arith)));
              gone = λ t i. h.gone t (omega arith);
              past = λ t i. h.past t (omega arith);
              bare = λ i. e';
              fresh = λ j i. rw e' refl;
            }
      ]

  limit_key-injective : (u v : String) → limit_key u ≡ limit_key v → u ≡ v
  unfolding limit_key
  limit_key-injective u v h = append_cancel_left "ratelimit:" u v h

  limit_key-eq : (u v : String) → (limit_key v == limit_key u) ≡ (v == u)
  limit_key-eq u v =
      let same = limit_key-injective v u in
      ground
        (arith, eq_iff v u, eq_iff (limit_key v) (limit_key u), same, ap limit_key {x = v} {y = u})

  -- What is forgotten is over.
  entries_of-forget_old :
      (u v : String) (now : ℕ) (z : Z)
      → entries_of u (forget_old (limit_key v) window now z)
        ≡ (if v == u then select (live span now) (entries_of u z) else entries_of u z)
  unfolding forget_old
  entries_of-forget_old u v now z =
      let same = limit_key-eq u v in
      let cut = laws.entries-zrem (limit_key v) (limit_key u) (now - span) z in
      elim (Bool-cases (ltb now span)) [
        | inl early ↦
            let all = select-every (live span now) (entries_of u z) (λ e. ground arith) in
            ground (arith, all)
        | inr late ↦
            let cong =
              select-cong (λ (e : String × ℕ). ltb (now - span) e.1) (live span now)
                (entries_of u z) (λ e. ground arith) in
            ground (arith, cut, same, cong)
      ]

  left-forget_old :
      (u v : String) (now : ℕ) (z : Z)
      → (v == u) ≡ false
      → left u (forget_old (limit_key v) window now z) ≡ left u z
  unfolding forget_old
  left-forget_old u v now z other =
      let apart = limit_key-eq u v ∙ other in
      let kept = laws.life-zrem (limit_key v) (limit_key u) (now - span) z apart in
      ground (arith, kept)

  left-expire :
      (v u m : String) (now : ℕ) (z : Z)
      → let z2 = zs.zadd (limit_key v) m now z in
        left u (zs.expire (limit_key v) window z2)
        ≡ (if limit_key v == limit_key u then span else left u z2)
  left-expire v u m now z =
      let key = limit_key v in
      let own : entries_of v (zs.zadd key m now z)
          ≡ select (λ e. not (e.0 == m)) (entries_of v z) ++ (m, now) ∷ [] =
        rw (eq_refl key) at (laws.entries-zadd key key m now z) in
      let count =
        length-append (select (λ (e : String × ℕ). not (e.0 == m)) (entries_of v z))
          ((m, now) ∷ []) in
      laws.life-expire key (limit_key u) window (zs.zadd key m now z)
        (omega (arith, ap length own, count))

  entries_of-check_other :
      (u v : String) (rate now n : ℕ) (z : Z)
      → 0 < window
      → (v == u) ≡ false
      → (entries_of u (check uuid rate window v now n z).1 ≡ entries_of u z)
        × (left u (check uuid rate window v now n z).1 ≡ left u z)
  unfolding check
  entries_of-check_other u v rate now n z w other =
      let key = limit_key v in
      let k = limit_key u in
      let apart = limit_key-eq u v ∙ other in
      let z1 = forget_old key window now z in
      let z2 = zs.zadd key (uuid n) now z1 in
      let forgot = entries_of-forget_old u v now z in
      let added = laws.entries-zadd key k (uuid n) now z1 in
      let kept = laws.entries-expire key k window z2 w in
      let life3 = left-expire v u (uuid n) now z1 in
      (
        kept ∙ (rw apart at added) ∙ (rw other at forgot),
        (rw apart at life3)
            ∙ laws.life-zadd key k (uuid n) now z1 apart
            ∙ left-forget_old u v now z other,
      )

  entries_of-check :
      (u : String) (rate now n : ℕ) (z : Z)
      → 0 < window
      → select (λ e. not (e.0 == uuid n)) (entries_of u z) ≡ entries_of u z
      → let entries_of' = select (live span now) (entries_of u z) ++ (uuid n, now) ∷ [] in
        let (accepted, z') = check uuid rate window u now n z in
        (accepted ≡ leb (length entries_of') rate)
        × (entries_of u z' ≡ entries_of')
        × (left u z' ≡ span)
  unfolding check
  entries_of-check u rate now n z w new =
      let key = limit_key u in
      let z1 = forget_old key window now z in
      let z2 = zs.zadd key (uuid n) now z1 in
      let forgot : entries_of u z1 ≡ select (live span now) (entries_of u z) =
        rw (eq_refl u) at (entries_of-forget_old u u now z) in
      let cut : select (λ e. not (e.0 == uuid n)) (entries_of u z1)
          ≡ select (live span now) (entries_of u z) =
        ap (select (λ e. not (e.0 == uuid n))) forgot
        ∙ select-swap (λ e. not (e.0 == uuid n)) (live span now) (entries_of u z)
        ∙ ap (select (live span now)) new in
      let added : entries_of u z2 ≡ select (live span now) (entries_of u z) ++ (uuid n, now) ∷ [] =
        (rw (eq_refl key) at (laws.entries-zadd key key (uuid n) now z1))
        ∙ ap (λ l. l ++ (uuid n, now) ∷ []) cut in
      (
        ap (λ c. leb c rate) (laws.zcard-eq key z2 ∙ ap length added),
        laws.entries-expire key key window z2 w ∙ added,
        rw (eq_refl key) at (left-expire u u (uuid n) now z1),
      )

  pub Tracks-ask_other :
      (u v : String) (rate now n : ℕ) (z : Z) (log : List (String × ℕ))
      → 0 < window
      → (v == u) ≡ false
      → Tracks u now n z log
      → Tracks u now (n + 1) (check uuid rate window v now n z).1 (log ++ (v, now) ∷ [])
  Tracks-ask_other u v rate now n z log w other h =
      let (e, l) = entries_of-check_other u v rate now n z w other in
      let old : (t : ℕ) → recent span u t (log ++ (v, now) ∷ []) ≡ recent span u t log =
        λ t. let r = recent-append span u v t now log in ground arith in
      record {
        same = λ t i. ap (λ f. length (select (live span t) f)) e ∙ h.same t i ∙ sym (old t);
        gone = λ t i. old t ∙ h.gone t (omega (arith, l, i));
        past = λ t i. old t ∙ h.past t i;
        bare = λ i. e ∙ h.bare (omega (arith, l, i));
        fresh = λ j i. rw e (h.fresh j (omega arith));
      }

  pub Tracks-ask :
      ((i j : ℕ) → (uuid i == uuid j) ≡ true → i ≡ j)
      → (u : String) (rate now n : ℕ) (z : Z) (log : List (String × ℕ)) → 0 < window
      → Tracks u now n z log
      → let log' = log ++ (u, now) ∷ [] in
        ((check uuid rate window u now n z).0 ≡ leb (recent span u now log') rate)
        × Tracks u now (n + 1) (check uuid rate window u now n z).1 log'
  Tracks-ask unique u rate now n z log w h =
      let new = h.fresh n (omega arith) in
      let (answer, e, l) = entries_of-check u rate now n z w new in
      let kept = select (live span now) (entries_of u z) in
      let old = λ (t : ℕ). recent-append span u u t now log in
      let now_recent : recent span u now (log ++ (u, now) ∷ [])
          ≡ length (kept ++ (uuid n, now) ∷ []) =
        let r = old now in
        let same = h.same now (omega arith) in
        let size = length-append kept ((uuid n, now) ∷ []) in ground (arith, eq_refl u) in
      let later : (t : ℕ) → now + span ≤ t → recent span u t (log ++ (u, now) ∷ []) ≡ 0 =
        λ t i. let r = old t in let past = h.past t i in ground (arith, eq_refl u) in
      (
        answer ∙ ap (λ c. leb c rate) (sym now_recent),
        record {
          same = λ t i.
              let r = old t in
              let before = h.same t i in
              let more = length-live_append span t now (uuid n) (entries_of u z) i in
              ap (λ f. length (select (live span t) f)) e ∙ (ground (arith, eq_refl u));
          gone = λ t i. later t (omega (arith, l, i));
          past = later;
          bare = λ i. absurd (omega (arith, l, i));
          fresh = λ j i.
              let older = h.fresh j (omega arith) in
              let new_one =
                select-append (λ (x : String × ℕ). not (x.0 == uuid j)) kept ((uuid n, now) ∷ []) in
              let old_ones =
                select-swap (λ (x : String × ℕ). not (x.0 == uuid j)) (live span now)
                  (entries_of u z)
                ∙ ap (select (live span now)) older in
              let apart = unique n j in
              let differs : (uuid n == uuid j) ≡ false = ground arith in
              rw e (rw new_one (rw old_ones (rw differs refl)));
        },
      )
