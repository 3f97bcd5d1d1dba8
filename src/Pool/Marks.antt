-- ===== src/Pool/Marks.antt =====
-- One lease and one release on a region's list of workers.
use asb_cloud_api.Base.{
  ◌≡◌, refl, ◌⊎◌, inl, inr, ℕ, zero, suc, ◌≤◌, ◌<◌, String, Bool, true, false, none, some, List, [],
  ◌∷◌, arith, length, get_elem?, replicate, count_if, Bool-cases, ap, nat_eq,
}
use asb_cloud_api.Pool.{Worker, lease_first, set_idle, idle_worker}

abbrev pub busy_count : List Worker → ℕ
busy_count = count_if (λ w. w.busy)

abbrev pub is_busy : ℕ → List Worker → Bool
is_busy i ws = elim (get_elem? ws i) [ none ↦ false | some w ↦ w.busy ]

-- What a successful lease does: the worker was idle, and it alone changes.
pub record Leases (region : String) (ws : List Worker) (i : ℕ) (ws' : List Worker) : Type 0 where
  pub was_idle : is_busy i ws ≡ false
  pub bounded : i < length ws
  pub now_leased : get_elem? ws' i ≡ some (record { busy = true; lease_region = some region })
  pub others : (j : ℕ) → (j ≡ i) ⊎ (get_elem? ws' j ≡ get_elem? ws j)
  pub counted : busy_count ws' ≡ suc (busy_count ws)
  pub same_length : length ws' ≡ length ws

others_after :
    (w : Worker) (ws ws' : List Worker) (i : ℕ)
    → ((j : ℕ) → (j ≡ i) ⊎ (get_elem? ws' j ≡ get_elem? ws j))
    → (j : ℕ) → (j ≡ suc i) ⊎ (get_elem? (w ∷ ws') j ≡ get_elem? (w ∷ ws) j)
others_after w ws ws' i h zero = inr refl
others_after w ws ws' i h (suc j) = elim (h j) [ inl e ↦ inl (ap suc e) | inr e ↦ inr e ]

others_first :
    (v w : Worker) (ws : List Worker) (j : ℕ)
    → (j ≡ 0) ⊎ (get_elem? (w ∷ ws) j ≡ get_elem? (v ∷ ws) j)
others_first v w ws zero = inl refl
others_first v w ws (suc j) = inr refl

pub lease_first-Leases :
    (region : String) (ws : List Worker)
    → busy_count ws < length ws
    → (i : ℕ) × (ws' : List Worker) × (lease_first region ws ≡ some (i, ws'))
      × Leases region ws i ws'
unfolding lease_first
lease_first-Leases region [] h = elim h [ ]
lease_first-Leases region (w ∷ ws) h = elim (Bool-cases w.busy) [
  | inl busy ↦
      let (i, ws', found, l) = lease_first-Leases region ws (ground arith) in
      (
        suc i,
        w ∷ ws',
        ground arith,
        record {
          was_idle = l.was_idle;
          bounded = omega arith;
          now_leased = l.now_leased;
          others = others_after w ws ws' i l.others;
          counted = ground arith;
          same_length = ap suc l.same_length;
        },
      )
  | inr idle ↦ (
    0,
    record { busy = true; lease_region = some region } ∷ ws,
    ground arith,
    record {
      was_idle = idle;
      bounded = omega arith;
      now_leased = refl;
      others = others_first w _ ws;
      counted = ground arith;
      same_length = refl;
    },
  )
]

pub busy_count-set_idle :
    (i : ℕ) (ws : List Worker)
    → is_busy i ws ≡ true
    → busy_count ws ≡ suc (busy_count (set_idle i ws))
unfolding set_idle
busy_count-set_idle i [] h = cc
busy_count-set_idle zero (w ∷ ws) h = ground arith
busy_count-set_idle (suc i) (w ∷ ws) h = ground (arith, busy_count-set_idle i ws)

pub length-set_idle : (i : ℕ) (ws : List Worker) → length (set_idle i ws) ≡ length ws
unfolding set_idle
length-set_idle i [] = refl
length-set_idle zero (w ∷ ws) = refl
length-set_idle (suc i) (w ∷ ws) = ap suc (length-set_idle i ws)

pub busy_count-idle : (n : ℕ) → busy_count (replicate n idle_worker) ≡ 0
busy_count-idle zero = refl
busy_count-idle (suc n) = busy_count-idle n

pub busy_count-le-length : (ws : List Worker) → busy_count ws ≤ length ws
busy_count-le-length [] = omega arith
busy_count-le-length (w ∷ ws) = ground (arith, busy_count-le-length ws)
