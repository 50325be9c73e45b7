-- ===== src/Svc/Allocated.antt =====
-- The map of device ids and the interfaces agree, whatever is plugged and unplugged.
use greybus.Base.{
  ℕ, ◌≤◌, ◌<◌, ◌≡◌, refl, inl, inr, true, false, none, some, List, [], ◌∷◌, ◌==◌, ◌||◌,
  if◌then◌else◌, arith, map, All, erase, has, Distinct, Bool-cases, Option-cases, ◌∙◌, ap, sym,
  subst, erase_of_not_has, erase-Distinct,
}
use greybus.Svc.{Interface, Host, device_id_ap, blank, find, remove, put_back, hot_unplug_recv}

abbrev pub interface_ids : List Interface → List ℕ
interface_ids = map (λ (i : Interface). i.interface_id)

-- The device ids of the interfaces, but for that of the AP.
abbrev pub module_ids : List Interface → List ℕ
module_ids [] = []
module_ids (i ∷ is) =
    if i.device_id == device_id_ap then module_ids is else i.device_id ∷ module_ids is

-- The map holds the ids of the modules' interfaces and no other, each once, and no two interfaces have
-- the same interface id.
pub record IsAllocated (hd : Host) : Type 0 where
  pub ids : hd.device_ids ≡ module_ids hd.interfaces
  pub distinct : Distinct hd.device_ids
  pub modules : All (λ d. 2 ≤ d) hd.device_ids
  pub interfaces : Distinct (interface_ids hd.interfaces)

has_small : (d : ℕ) (ds : List ℕ) → d < 2 → All (λ d. 2 ≤ d) ds → has d ds ≡ false
has_small d [] small a = refl
has_small d (x ∷ ds) small (a, b) = ground (arith, has_small d ds small b)

erase-All : (d : ℕ) (ds : List ℕ) → All (λ d. 2 ≤ d) ds → All (λ d. 2 ≤ d) (erase d ds)
erase-All d [] a = tt
erase-All d (x ∷ ds) (a, b) = elim (Bool-cases (x == d)) [
  | inl y ↦ rw y b
  | inr n ↦ rw n (a, erase-All d ds b)
]

-- The device id of an interface that is found is in the map, unless it is the AP's.
has-find :
    (id : ℕ) (is : List Interface) (i : Interface)
    → find id is ≡ some i
    → ((i.device_id == device_id_ap) || has i.device_id (module_ids is)) ≡ true
unfolding find
has-find id [] i e = absurd (ground arith)
has-find id (j ∷ is) i e = elim (Bool-cases (j.interface_id == id)) [
  | inl y ↦ let same : i.device_id ≡ j.device_id = ground arith in ground (arith, same)
  | inr n ↦ let there : find id is ≡ some i = ground arith in ground (arith, has-find id is i there)
]

pub has-find-none :
    (id : ℕ) (is : List Interface) → find id is ≡ none → has id (interface_ids is) ≡ false
unfolding find
has-find-none id [] e = refl
has-find-none id (i ∷ is) e = ground (arith, has-find-none id is)

interface_ids-remove :
    (id : ℕ) (is : List Interface) → interface_ids (remove id is) ≡ erase id (interface_ids is)
unfolding remove
interface_ids-remove id [] = refl
interface_ids-remove id (i ∷ is) = ground (arith, interface_ids-remove id is)

-- What holds of the ids of all interfaces holds of those of the others.
module_ids-tail :
    (j : Interface) (is : List Interface)
    → Distinct (module_ids (j ∷ is))
    → All (λ d. 2 ≤ d) (module_ids (j ∷ is))
    → Distinct (module_ids is)
      × All (λ d. 2 ≤ d) (module_ids is)
      × ((j.device_id == device_id_ap) ≡ false → has j.device_id (module_ids is) ≡ false)
module_ids-tail j is d a = elim (Bool-cases (j.device_id == device_id_ap)) [
  | inl z ↦ (
    subst (λ b. Distinct (if b then module_ids is else j.device_id ∷ module_ids is)) z d,
    subst (λ b. All (λ d. 2 ≤ d) (if b then module_ids is else j.device_id ∷ module_ids is)) z a,
    λ n. absurd (ground arith),
  )
  | inr z ↦
      let (x, y) =
        subst (λ b. Distinct (if b then module_ids is else j.device_id ∷ module_ids is)) z d in
      (
        y,
        (subst (λ b. All (λ d. 2 ≤ d) (if b then module_ids is else j.device_id ∷ module_ids is)) z
            a).1,
        λ n. x,
      )
]

module_ids-remove :
    (id : ℕ) (is : List Interface) (i : Interface)
    → find id is ≡ some i
    → Distinct (module_ids is)
    → All (λ d. 2 ≤ d) (module_ids is)
    → erase i.device_id (module_ids is) ≡ module_ids (remove id is)
unfolding find remove
module_ids-remove id [] i e d a = absurd (ground arith)
module_ids-remove id (j ∷ is) i e d a =
    let (d', a', fresh) = module_ids-tail j is d a in
    elim (Bool-cases (j.interface_id == id)) [
      | inl y ↦
          let same : i.device_id ≡ j.device_id = ground arith in
          elim (Bool-cases (j.device_id == device_id_ap)) [
            | inl z ↦
                rw (same, y, z)
                  (erase_of_not_has j.device_id (module_ids is)
                    (has_small j.device_id (module_ids is) (ground arith) a'))
            | inr z ↦ rw (same, y, z) (ground arith)
          ]
      | inr n ↦
          let there : find id is ≡ some i = ground arith in
          elim (Bool-cases (j.device_id == device_id_ap)) [
            | inl z ↦ rw (n, z) (module_ids-remove id is i there d' a')
            | inr z ↦
                rw (n, z)
                  (ground (
                    arith,
                    has-find id is i there,
                    has_small i.device_id,
                    fresh z,
                    module_ids-remove id is i there d' a',
                  ))
          ]
    ]

pub same-IsAllocated :
    (hd hd' : Host)
    → hd'.interfaces ≡ hd.interfaces
    → hd'.device_ids ≡ hd.device_ids
    → IsAllocated hd
    → IsAllocated hd'
same-IsAllocated hd hd' e f v = record {
  ids = f ∙ v.ids ∙ ap module_ids (sym e);
  distinct = subst Distinct (sym f) v.distinct;
  modules = subst (All (λ d. 2 ≤ d)) (sym f) v.modules;
  interfaces = subst (λ is. Distinct (interface_ids is)) (sym e) v.interfaces;
}

pub empty-IsAllocated : (hd : Host) → hd.interfaces ≡ [] → hd.device_ids ≡ [] → IsAllocated hd
empty-IsAllocated hd e f = record {
  ids = f ∙ ap module_ids (sym e);
  distinct = subst Distinct (sym f) tt;
  modules = subst (All (λ d. 2 ≤ d)) (sym f) tt;
  interfaces = subst (λ is. Distinct (interface_ids is)) (sym e) tt;
}

-- With the AP's interface alone.
pub one-IsAllocated :
    (id : ℕ) (hd : Host)
    → hd.interfaces ≡ record (blank id) { device_id = device_id_ap } ∷ []
    → hd.device_ids ≡ []
    → IsAllocated hd
one-IsAllocated id hd e f = record {
  ids = f ∙ ap module_ids (sym e);
  distinct = subst Distinct (sym f) tt;
  modules = subst (All (λ d. 2 ≤ d)) (sym f) tt;
  interfaces = subst (λ is. Distinct (interface_ids is)) (sym e) (refl, tt);
}

unplugged-IsAllocated :
    (id : ℕ) (hd : Host) (i : Interface)
    → find id hd.interfaces ≡ some i
    → IsAllocated hd
    → IsAllocated (put_back i.device_id id hd)
unfolding put_back
unplugged-IsAllocated id hd i e v =
    let d : Distinct (module_ids hd.interfaces) = subst Distinct v.ids v.distinct in
    let a : All (λ d. 2 ≤ d) (module_ids hd.interfaces) =
      subst (All (λ d. 2 ≤ d)) v.ids v.modules in
    record {
      ids = ap (erase i.device_id) v.ids ∙ module_ids-remove id hd.interfaces i e d a;
      distinct = erase-Distinct i.device_id hd.device_ids v.distinct;
      modules = erase-All i.device_id hd.device_ids v.modules;
      interfaces =
          rw (interface_ids-remove id hd.interfaces)
            (erase-Distinct id (interface_ids hd.interfaces) v.interfaces);
    }

pub hot_unplug_recv-IsAllocated :
    (payload : List ℕ) (hd : Host) → IsAllocated hd → IsAllocated (hot_unplug_recv payload hd).1
unfolding hot_unplug_recv
hot_unplug_recv-IsAllocated [] hd v = v
hot_unplug_recv-IsAllocated (id ∷ rest) hd v = elim (Option-cases (find id hd.interfaces)) [
  | inl e ↦ rw (e, hot_unplug_recv) v
  | inr (i, e) ↦ rw (e, hot_unplug_recv) (unplugged-IsAllocated id hd i e v)
]
