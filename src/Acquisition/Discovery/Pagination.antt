-- ===== src/Acquisition/Discovery/Pagination.antt =====
-- A caller of services/acquisition/discovery.py that follows next_cursor.
use roles.Prelude.{
  ℕ, zero, suc, ◌+◌, ◌-◌, ◌≤◌, ◌<◌, min, String, true, false, ◌==◌, string_eq, ltb, if◌then◌else◌,
  Option, some, none, List, [], ◌∷◌, ◌++◌, map, length, take, drop, take-take, drop-drop,
  length-take, length-drop, take-append-drop, take_all, select_where, order_by, Bool-cases,
  Option-cases, inl, inr, ◌≡◌, refl, sym, ap, ◌∙◌, arith,
}
use roles.Outside.{Outside}
use roles.Db.Schema.{Db, SourceItem, Request, Json}
use roles.Db.SourceItems.{no_filter, matches, listed_before, list_items_by_source}
use roles.Db.Requests.{get_by_key}
use roles.Acquisition.Errors.{Result, ok, err, ◌>>=◌, Result-cases}
use roles.Acquisition.Discovery.{
  parse_cursor, parse_limit, DiscoveredItem, shape_item, Page, page_rows, page, list_discovered,
}

-- str(n) is not empty, and int() reads it back.
pub record IsDecimal (o : Outside) : Type 0 where
  pub parse-show : (n : ℕ) → o.parse_int (o.show_int n) ≡ some (false, n)
  pub show-nonempty : (n : ℕ) → (o.show_int n == "") ≡ false

module _ (o : Outside) (key : String) (limit : Json) (db : Db) where
  -- The items of the pages from a cursor on, a call for each unit of fuel.
  abbrev pub follow : Page → (String → Result (List DiscoveredItem)) → Result (List DiscoveredItem)
  follow p next = elim p.next_cursor [
    | none ↦ ok p.items
    | some c ↦ next c >>= λ rest. ok (p.items ++ rest)
  ]

  unfoldable pub walk : ℕ → Option String → Result (List DiscoveredItem)
  walk zero cursor = ok []
  walk (suc fuel) cursor =
      list_discovered o key cursor limit db >>= λ p. follow p (λ c. walk fuel (some c))

-- All items of a source, in the order of the listing.
abbrev pub all_items : Outside → ℕ → Db → List SourceItem
all_items o source_id db =
    order_by (λ a b. listed_before a.published_at b.published_at a.id b.id)
      (select_where (matches o.ilike source_id no_filter) db.source_items)

map-append :
    (xs ys : List SourceItem) → map shape_item xs ++ map shape_item ys ≡ map shape_item (xs ++ ys)
map-append [] ys = refl
map-append (x ∷ xs) ys = ap (◌∷◌ (shape_item x)) (map-append xs ys)

-- The limit that is used lies between 1 and 200.
pub parse_limit_bounds : (limit : Json) {b : ℕ} → parse_limit limit ≡ ok b → (1 ≤ b) × (b ≤ 200)
unfolding parse_limit
parse_limit_bounds Json.null h = cc
parse_limit_bounds (Json.bool x) h = cc
parse_limit_bounds (Json.neg n) h = cc
parse_limit_bounds (Json.str s) h = cc
parse_limit_bounds Json.other h = cc
parse_limit_bounds (Json.num n) {b} h = elim (Bool-cases (ltb n 1)) [
  | inl e ↦ cc (rw e at h)
  | inr e ↦ let k : min n 200 ≡ b = ok_inj (rw e at h) in (ground arith, omega (arith, k))
]
  where
    ok_inj : {x y : ℕ} → ok x ≡ ok y → x ≡ y
    ok_inj p = cc p

module _ (o : Outside) (key : String) (limit : Json) (db : Db) (dec : IsDecimal o) (r : Request)
    (s b : ℕ) (found : get_by_key key db ≡ some r) (has_source : r.source_id ≡ some s)
    (bounded : parse_limit limit ≡ ok b) where
  listed : ℕ → List SourceItem
  listed k = drop k (all_items o s db)

  parse_cursor-show : (n : ℕ) → parse_cursor o (some (o.show_int n)) ≡ ok n
  unfolding parse_cursor
  parse_cursor-show n = rw (dec.show-nonempty n, dec.parse-show n) refl

  list_discovered-page :
      (cursor : Option String) (k : ℕ)
      → parse_cursor o cursor ≡ ok k
      → list_discovered o key cursor limit db ≡ ok (page o r k b db)
  unfolding list_discovered
  list_discovered-page cursor k e = rw (list_discovered, found, e, bounded) refl

  page_rows-listed : (k : ℕ) → page_rows o r.source_id b k db ≡ take (b + 1) (listed k)
  unfolding page_rows list_items_by_source listed
  page_rows-listed k = rw has_source refl

  -- The items of a page, and the cursor behind it while items are left.
  page-items : (k : ℕ) → (page o r k b db).items ≡ map shape_item (take b (listed k))
  unfolding page
  page-items k = rw (page_rows-listed k, take-take b (b + 1) (listed k) (omega arith)) refl

  page-next_cursor :
      (k : ℕ)
      → (page o r k b db).next_cursor
        ≡ (if ltb b (length (listed k)) then some (o.show_int (k + b)) else none)
  unfolding page
  page-next_cursor k = rw (page_rows-listed k, length-take (b + 1) (listed k)) (ground arith)

  follow-page :
      (k : ℕ) (next : String → Result (List DiscoveredItem))
      → (ltb b (length (listed k)) ≡ true
          → next (o.show_int (k + b)) ≡ ok (map shape_item (listed (k + b))))
      → follow o key limit db (page o r k b db) next ≡ ok (map shape_item (listed k))
  unfolding listed
  follow-page k next ih = elim (Bool-cases (ltb b (length (listed k)))) [
    | inr e ↦ rw (page-next_cursor k, e, page-items k, take_all b (listed k) (ground arith)) refl
    | inl e ↦
        rw (page-next_cursor k, e, page-items k, ih e)
          (ap ok (
            map-append (take b (listed k)) (listed (k + b))
            ∙ ap (λ x. map shape_item (take b (listed k) ++ x))
                (sym (drop-drop b k (all_items o s db)))
            ∙ ap (map shape_item) (take-append-drop b (listed k))))
  ]

  length-listed : (k : ℕ) → length (listed (k + b)) ≡ length (listed k) - b
  unfolding listed
  length-listed k = ap length (sym (drop-drop b k (all_items o s db))) ∙ length-drop b (listed k)

  walk-listed :
      (fuel k : ℕ) (cursor : Option String)
      → parse_cursor o cursor ≡ ok k
      → length (listed k) < fuel
      → walk o key limit db fuel cursor ≡ ok (map shape_item (listed k))
  unfolding walk
  walk-listed zero k cursor e h = absurd (omega arith)
  walk-listed (suc fuel) k cursor e h = rw (list_discovered-page cursor k e) (
      follow-page k (λ c. walk o key limit db fuel (some c))
        (λ more.
          walk-listed fuel (k + b) (some (o.show_int (k + b))) (parse_cursor-show (k + b))
            (ground (arith, length-listed k, (parse_limit_bounds limit bounded).0))))

  -- A caller that starts without a cursor and follows next_cursor, on a request with a source and
  -- with a limit that is accepted, has every item of the source when no cursor comes, each once and
  -- in the order of the listing: a call more than there are items is enough. int() is assumed to read
  -- back what str() writes.
  pub walk-all_items :
      (fuel : ℕ)
      → length (all_items o s db) < fuel
      → walk o key limit db fuel none ≡ ok (map shape_item (all_items o s db))
  unfolding parse_cursor listed
  walk-all_items fuel h = walk-listed fuel 0 none refl h

-- Whatever it is given, list_discovered answers a page of at most 200 items, or an error.
abbrev pub HasFewItems : Result Page → Type 0
HasFewItems (err e) = Unit
HasFewItems (ok p) = length p.items ≤ 200

length-map : (xs : List SourceItem) → length (map shape_item xs) ≡ length xs
length-map [] = refl
length-map (x ∷ xs) = ap suc (length-map xs)

-- A page holds at most 200 items, whatever the request, the cursor and the limit that are given.
pub list_discovered-HasFewItems :
    (o : Outside) (key : String) (cursor : Option String) (limit : Json) (db : Db)
    → HasFewItems (list_discovered o key cursor limit db)
unfolding list_discovered page
list_discovered-HasFewItems o key cursor limit db = elim (Option-cases (get_by_key key db)) [
  | inl e ↦ rw (HasFewItems, e) tt
  | inr (r, e) ↦
      rw (HasFewItems, e)
        (elim (Result-cases (parse_cursor o cursor)) [
          | inl (x, c) ↦ rw (HasFewItems, c) tt
          | inr (k, c) ↦
              rw (HasFewItems, c)
                (elim (Result-cases (parse_limit limit)) [
                  | inl (x, l) ↦ rw (HasFewItems, l) tt
                  | inr (b, l) ↦
                      rw (HasFewItems, l)
                        (omega (
                          arith,
                          length-map (take b (page_rows o r.source_id b k db)),
                          length-take b (page_rows o r.source_id b k db),
                          (parse_limit_bounds limit l).1,
                        ))
                ])
        ])
]
