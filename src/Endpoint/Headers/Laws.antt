-- ===== src/Endpoint/Headers/Laws.antt =====
-- net/http's Header and endpoint/http.go's mustBeRequestIDHeaderKey: that canonical names are equal
-- exactly where tokens are one name in some case, and what a request's headers hold.
use protobuf_interceptors.Base.{
  ℕ, ◌+◌, ◌-◌, ◌<◌, ◌≡◌, refl, ap, sym, ◌∙◌, Bool, true, false, not, ◌&&◌, ◌||◌, [], ◌∷◌, map,
  between, if◌then◌else◌, ◌==◌, all, arith, all_cons,
}
use protobuf_interceptors.Base.Outcomes.{returned, panicked}
use protobuf_interceptors.Text.Bytes.{Bytes, bytes, equal, equal_iff, equal_sound, lookup-insert}
use protobuf_interceptors.Text.Runes.{runes, fold, equal_fold, runes-cons_ascii}
use protobuf_interceptors.Endpoint.Http.{
  header_name_char, valid_header_name, must_be_request_id_header_key,
}
use protobuf_interceptors.Endpoint.Headers.{
  Header, canonical_chars, canonical_header_key, header_get, header_set, no_content_coding,
  set_request_id,
}

pub header_get-header_set :
    (j k v : Bytes) (h : Header)
    → header_get k (header_set j v h)
      ≡ (if equal (canonical_header_key j) (canonical_header_key k) then v else header_get k h)
unfolding header_get header_set
header_get-header_set j k v h =
    ground (arith, lookup-insert (canonical_header_key j) (canonical_header_key k) (v ∷ []) h)

header_name_char-lt : (c : ℕ) → header_name_char c ≡ true → c < 0x80
header_name_char-lt c h = ground arith

fold_char :
    (upper : Bool) (c : ℕ)
    → c < 0x80
    → fold (
        if upper && between b'a' b'z' c
        then c - 32
        else if not upper && between b'A' b'Z' c
        then c + 32
        else c)
      ≡ fold c
unfolding fold
fold_char upper c h = ground arith

fold-canonical_chars :
    (upper : Bool) (s : Bytes)
    → all header_name_char s ≡ true
    → map fold (canonical_chars upper s) ≡ map fold s
unfolding canonical_chars
fold-canonical_chars upper [] h = refl
fold-canonical_chars upper (c ∷ s) h =
    let (hc, hs) = all_cons header_name_char c s h in
    rw (fold_char upper c (header_name_char-lt c hc), fold-canonical_chars (c == b'-') s hs)

runes-token : (s : Bytes) → all header_name_char s ≡ true → runes s ≡ s
unfolding runes
runes-token [] h = refl
runes-token (c ∷ s) h =
    let (hc, hs) = all_cons header_name_char c s h in
    runes-cons_ascii c s (header_name_char-lt c hc) ∙ ap (◌∷◌ c) (runes-token s hs)

canonical-token :
    (name : Bytes)
    → all header_name_char name ≡ true
    → canonical_header_key name ≡ canonical_chars true name
unfolding canonical_header_key
canonical-token name h = rw h

-- A token with the canonical name of one of the controlled headers is that header in some case.
canonical-equal_fold :
    (key name : Bytes)
    → all header_name_char key ≡ true
    → all header_name_char name ≡ true
    → canonical_header_key key ≡ canonical_header_key name
    → equal_fold key name ≡ true
unfolding equal_fold
canonical-equal_fold key name hk hn h =
    let same : canonical_chars true key ≡ canonical_chars true name =
      sym (canonical-token key hk) ∙ h ∙ canonical-token name hn in
    (equal_iff (map fold (runes key)) (map fold name)).1 (
      ap (map fold) (runes-token key hk)
      ∙ sym (fold-canonical_chars true key hk)
      ∙ ap (map fold) same
      ∙ fold-canonical_chars true name hn)

-- Two letters of one case-folding are one letter in either case.
canonical_char :
    (upper : Bool) (c d : ℕ)
    → c < 0x80
    → d < 0x80
    → fold c ≡ fold d
    → (if upper && between b'a' b'z' c
        then c - 32
        else if not upper && between b'A' b'Z' c
        then c + 32
        else c)
      ≡ (if upper && between b'a' b'z' d
          then d - 32
          else if not upper && between b'A' b'Z' d
          then d + 32
          else d)
unfolding fold
canonical_char upper c d hc hd h = ground arith

hyphen-fold : (c d : ℕ) → c < 0x80 → d < 0x80 → fold c ≡ fold d → (c == b'-') ≡ (d == b'-')
unfolding fold
hyphen-fold c d hc hd h = ground arith

canonical_chars-fold :
    (upper : Bool) (s t : Bytes)
    → all header_name_char s ≡ true
    → all header_name_char t ≡ true
    → map fold s ≡ map fold t
    → canonical_chars upper s ≡ canonical_chars upper t
unfolding canonical_chars
canonical_chars-fold upper [] [] hs ht h = refl
canonical_chars-fold upper [] (d ∷ t) hs ht h = cc
canonical_chars-fold upper (c ∷ s) [] hs ht h = cc
canonical_chars-fold upper (c ∷ s) (d ∷ t) hs ht h =
    let (hc, hs') = all_cons header_name_char c s hs in
    let (hd, ht') = all_cons header_name_char d t ht in
    let lc = header_name_char-lt c hc in
    let ld = header_name_char-lt d hd in
    let same : fold c ≡ fold d = cc h in
    let rest : map fold s ≡ map fold t = cc h in
    cc (
      canonical_char upper c d lc ld same,
      hyphen-fold c d lc ld same,
      canonical_chars-fold (d == b'-') s t hs' ht' rest,
    )

-- Tokens that are one name in any case have one canonical name.
pub equal_fold-canonical :
    (key name : Bytes)
    → all header_name_char key ≡ true
    → all header_name_char name ≡ true
    → equal_fold key name ≡ true
    → canonical_header_key key ≡ canonical_header_key name
unfolding equal_fold
equal_fold-canonical key name hk hn h =
    let folded : map fold key ≡ map fold name =
      ap (map fold) (sym (runes-token key hk))
      ∙ equal_sound (map fold (runes key)) (map fold name) h in
    canonical-token key hk
    ∙ canonical_chars-fold true key name hk hn folded
    ∙ sym (canonical-token name hn)

canonical-other :
    (key name : Bytes)
    → all header_name_char key ≡ true
    → all header_name_char name ≡ true
    → equal_fold key name ≡ false
    → equal (canonical_header_key key) (canonical_header_key name) ≡ false
canonical-other key name hk hn h =
    go (equal (canonical_header_key key) (canonical_header_key name)) refl
  where
    go :
        (b : Bool)
        → equal (canonical_header_key key) (canonical_header_key name) ≡ b
        → equal (canonical_header_key key) (canonical_header_key name) ≡ false
    go false e = e
    go true e = cc (h, canonical-equal_fold key name hk hn (equal_sound _ _ e))

guards_passed :
    (v a b d : Bool)
    → (if not v then panicked else if a || (b || (d || false)) then panicked else returned (tt {0}))
      ≡ returned tt
    → (v ≡ true) × (a ≡ false) × (b ≡ false) × (d ≡ false)
guards_passed v a b d h = ground arith

pub request_id_key_cases :
    (c : ℕ) (key : Bytes)
    → must_be_request_id_header_key (c ∷ key) ≡ returned tt
    → (all header_name_char (c ∷ key) ≡ true)
      × (equal_fold (c ∷ key) (bytes "Content-Type") ≡ false)
      × (equal_fold (c ∷ key) (bytes "Accept") ≡ false)
      × (equal_fold (c ∷ key) (bytes "Authorization") ≡ false)
unfolding must_be_request_id_header_key valid_header_name
request_id_key_cases c key h =
    guards_passed (valid_header_name (c ∷ key)) (equal_fold (c ∷ key) (bytes "Content-Type"))
      (equal_fold (c ∷ key) (bytes "Accept")) (equal_fold (c ∷ key) (bytes "Authorization")) h

-- The request-ID header leaves any other header alone.
pub set_request_id_other :
    (key id name : Bytes) (h : Header)
    → (all header_name_char key ≡ true)
    → (all header_name_char name ≡ true)
    → equal_fold key name ≡ false
    → header_get name (set_request_id key id h) ≡ header_get name h
set_request_id_other key [] name h hk hn hf = refl
set_request_id_other key (i ∷ id) name h hk hn hf =
    header_get-header_set key name (i ∷ id) h ∙ rw (canonical-other key name hk hn hf)

pub no_content_coding_other :
    (name : Bytes) (h : Header)
    → equal (canonical_header_key (bytes "Accept-Encoding")) (canonical_header_key name) ≡ false
    → header_get name (no_content_coding h) ≡ header_get name h
unfolding no_content_coding
no_content_coding_other name h hn = go (equal (header_get (bytes "Accept-Encoding") h) []) refl
  where
    go :
        (b : Bool)
        → equal (header_get (bytes "Accept-Encoding") h) [] ≡ b
        → header_get name (no_content_coding h) ≡ header_get name h
    go false e = rw (no_content_coding, e)
    go true e =
        rw (no_content_coding, e)
          (header_get-header_set (bytes "Accept-Encoding") name (bytes "identity") h ∙ rw hn)
