-- ===== src/AddressSpace/Chain.antt =====
-- session/address_space.rs: the run of mappings around one that coalesce, each with the next.
use rd.Prelude.{
  ℕ, ◌≡◌, Bool, true, false, some, [], ◌∷◌, ◌++◌, refl, ap, ◌⊎◌, inl, inr, Bool-cases, sym, ◌∙◌,
  Option-cases, subst,
}
use rd.MemoryRange.{MemoryRange}
use rd.AddressSpace.MemoryMap.{Mapping, MemoryMap}
use rd.AddressSpace.View.{IsEntry, Sorted}
use rd.AddressSpace.Adjacent.{is_coalescable, assert_coalesceable}
use rd.AddressSpace.Coalesce.{Entry, first_of, last_of}
use rd.AddressSpace.Joined.{Joined, joined, coalescable-ne-none}
use rd.AddressSpace.Zipper.{onto, Before}

-- Two neighbours that coalesce fail the assertion.
pub record Clash (mem : MemoryMap) : Type 0 where
  pub before : MemoryMap
  pub lower : Entry
  pub higher : Entry
  pub after : MemoryMap
  pub neighbours : mem ≡ onto before (lower ∷ higher ∷ after)
  pub coalescable : is_coalescable lower.1 higher.1 ≡ some true
  pub fails : assert_coalesceable lower.1 higher.1 ≡ false

abbrev pub Chain : Entry → MemoryMap → Entry → Type 0
Chain e [] l = e ≡ l
Chain e (x ∷ xs) l = Joined e.1 x.1 × Chain x xs l

pub Chain-snoc :
    (e : Entry) (xs : MemoryMap) (l n : Entry)
    → Chain e xs l
    → Joined l.1 n.1
    → Chain e (xs ++ n ∷ []) n
Chain-snoc e [] l n c j = (subst (λ (x : Entry). Joined x.1 n.1) (sym c) j, refl)
Chain-snoc e (x ∷ xs) l n c j = (c.0, Chain-snoc x xs l n c.1 j)

pub Chain-append :
    (e : Entry) (xs : MemoryMap) (l : Entry) (ys : MemoryMap) (n : Entry)
    → Chain e xs l
    → Chain l ys n
    → Chain e (xs ++ ys) n
Chain-append e [] l ys n c d = subst (λ (x : Entry). Chain x ys n) (sym c) d
Chain-append e (x ∷ xs) l ys n c d = (c.0, Chain-append x xs l ys n c.1 d)

pub append_assoc : (xs ys zs : MemoryMap) → (xs ++ ys) ++ zs ≡ xs ++ (ys ++ zs)
append_assoc [] ys zs = refl
append_assoc (x ∷ xs) ys zs = ap (λ l. x ∷ l) (append_assoc xs ys zs)

pub record Firsts (e : Entry) (back : MemoryMap) : Type 0 where
  pub head : Entry
  pub run : MemoryMap
  pub left : MemoryMap
  pub found : first_of e back ≡ some head
  pub split : (tail : MemoryMap) → onto back (e ∷ tail) ≡ onto left (head ∷ (run ++ tail))
  pub chain : Chain head run e

pub record Lasts (e : Entry) (post : MemoryMap) : Type 0 where
  pub end : Entry
  pub run : MemoryMap
  pub left : MemoryMap
  pub found : last_of e post ≡ some end
  pub split : post ≡ run ++ left
  pub chain : Chain e run end

coalescable_cases :
    (j k : MemoryRange) (l r : Mapping) (el : IsEntry j l) (er : IsEntry k r)
    → (is_coalescable l r ≡ some true) ⊎ (is_coalescable l r ≡ some false)
coalescable_cases j k l r el er = elim (Option-cases (is_coalescable l r)) [
  | inl failed ↦ absurd (coalescable-ne-none j k l r el er failed)
  | inr (c, e) ↦ elim (Bool-cases c) [
    | inl joins ↦ inl (e ∙ ap (λ (b : Bool). some b) joins)
    | inr apart ↦ inr (e ∙ ap (λ (b : Bool). some b) apart)
  ]
]

pub firsts :
    (k : MemoryRange) (m : Mapping) (c : ℕ) (back : MemoryMap)
    → IsEntry k m
    → Before c back
    → Firsts (k, m) back ⊎ ((tail : MemoryMap) → Clash (onto back ((k, m) ∷ tail)))
unfolding first_of
firsts k m c [] e s = inl (record {
  head = (k, m);
  run = [];
  left = [];
  found = refl;
  split = λ tail. refl;
  chain = refl;
})
firsts k m c ((j, l) ∷ back) e s = elim (coalescable_cases j k l m s.0 e) [
  | inr apart ↦ inl (record {
    head = (k, m);
    run = [];
    left = (j, l) ∷ back;
    found = rw apart refl;
    split = λ tail. refl;
    chain = refl;
  })
  | inl joins ↦ elim (Bool-cases (assert_coalesceable l m)) [
    | inr broken ↦ inr (λ tail. record {
      before = back;
      lower = (j, l);
      higher = (k, m);
      after = tail;
      neighbours = refl;
      coalescable = joins;
      fails = broken;
    })
    | inl holds ↦ elim (firsts j l c back s.0 s.3) [
      | inr clash ↦ inr (λ tail. clash ((k, m) ∷ tail))
      | inl f ↦ inl (record {
        head = f.head;
        run = f.run ++ (k, m) ∷ [];
        left = f.left;
        found = rw joins (rw holds (f.found));
        split = λ tail.
            f.split ((k, m) ∷ tail)
            ∙ ap (λ (t : MemoryMap). onto f.left (f.head ∷ t))
                (sym (append_assoc f.run ((k, m) ∷ []) tail));
        chain = Chain-snoc f.head f.run (j, l) (k, m) f.chain (joined j k l m s.0 e joins holds);
      })
    ]
  ]
]

pub lasts :
    (k : MemoryRange) (m : Mapping) (b : ℕ) (post : MemoryMap)
    → IsEntry k m
    → Sorted b post
    → Lasts (k, m) post ⊎ ((back : MemoryMap) → Clash (onto back ((k, m) ∷ post)))
unfolding last_of
lasts k m b [] e s =
    inl (record { end = (k, m); run = []; left = []; found = refl; split = refl; chain = refl })
lasts k m b ((j, n) ∷ post) e s = elim (coalescable_cases k j m n e s.0) [
  | inr apart ↦ inl (record {
    end = (k, m);
    run = [];
    left = (j, n) ∷ post;
    found = rw apart refl;
    split = refl;
    chain = refl;
  })
  | inl joins ↦ elim (Bool-cases (assert_coalesceable m n)) [
    | inr broken ↦ inr (λ back. record {
      before = back;
      lower = (k, m);
      higher = (j, n);
      after = post;
      neighbours = refl;
      coalescable = joins;
      fails = broken;
    })
    | inl holds ↦ elim (lasts j n j.end post s.0 s.3) [
      | inr clash ↦ inr (λ back. clash ((k, m) ∷ back))
      | inl f ↦ inl (record {
        end = f.end;
        run = (j, n) ∷ f.run;
        left = f.left;
        found = rw joins (rw holds (f.found));
        split = ap (λ (t : MemoryMap). (j, n) ∷ t) f.split;
        chain = (joined k j m n e s.0 joins holds, f.chain);
      })
    ]
  ]
]
