-- ===== src/Xsqlite/Find.antt =====
-- src/xsqlite.c: the statements that the searches prepare, and the searches.
use secoli_sced.Base.{
  not, Bytes, codes, ℕ, ◌+◌, Bool, [], ◌∷◌, ◌++◌, Option, none, some, if◌then◌else◌, length, ℤ, pos,
  eqb_ℤ,
}
use secoli_sced.Clib.{snprintf}
use secoli_sced.ConsularDistrict.{ConsularDistrict, sce_code_unset}
use secoli_sced.Consulate.{Consulate}
use secoli_sced.Location.{Location}
use secoli_sced.Queue.Glib.{GQueue}
use secoli_sced.Queue.{Queue, queue_push}
use secoli_sced.Utils.{get_first_token}
use secoli_sced.Xsqlite.{
  Sqlite, xsqlite_query_locations, xsqlite_query_consulates, xsqlite_query_consular_districts,
  xsqlite_query_zip_code_specimina,
}
use secoli_sced.Zipcode.{Zipcode, zipcode_create, zipcode_set_cod_state_integer, zipcode_set_code}

abbrev pub cod_state_uk : ℤ
cod_state_uk = pos 75

abbrev pub cod_state_italy : ℤ
cod_state_italy = pos 97

abbrev pub name_abroad : Bytes
name_abroad =
    codes "SELECT DISTINCT Losi.Id Sce_Code, Es.Es4 Cons_Mae_Code, NULL Zip_Code, 'EE' Province, "
    ++ codes "'000000' Istat_Code, Losi.Nome Synonym, Losi.Sinonimo Name, "
    ++ codes
        "CASE WHEN LENGTH(Losi.Sinonimo) > 0 THEN Losi.Nome||' ['||Losi.Sinonimo||']' ELSE Losi.Nome END Full_Name "
    ++ codes "FROM Es INNER JOIN Losi ON Losi.Sede = Es.Es1 "
    ++ codes "WHERE Synonym LIKE (SELECT ? || '%') ORDER BY Full_Name DESC"

abbrev pub name_italy_without_province : Bytes
name_italy_without_province =
    codes "SELECT DISTINCT Co1 Sce_Code, '0000000' Cons_Mae_Code, Co6 Zip_code, "
    ++ codes "Co4 Province, Co2 Istat_Code, Co5 Synonym, NULL Name, Co5 Full_Name FROM Co "
    ++ codes "WHERE Synonym LIKE (SELECT ? || '%') ORDER BY Full_Name DESC"

abbrev pub name_italy_with_province : Bytes
name_italy_with_province =
    codes "SELECT DISTINCT Co1 Sce_Code, '0000000' Cons_Mae_Code, Co6 Zip_code, "
    ++ codes "Co4 Province, Co2 Istat_Code, Co5 Synonym, NULL Name, Co5 Full_Name FROM Co "
    ++ codes "WHERE Synonym LIKE (SELECT ? || '%') AND PROVINCE = ? ORDER BY Full_Name DESC"

abbrev pub sce_code_abroad : Bytes
sce_code_abroad =
    codes "SELECT DISTINCT Losi.Id Sce_Code, Es.Es4 Cons_Mae_Code, Pc.Pc3 Zip_Code, 'EE' Province, "
    ++ codes "'000000' Istat_Code, Losi.Nome Synonym, Losi.Sinonimo Name, "
    ++ codes
        "CASE WHEN LENGTH(Losi.Sinonimo) > 0 THEN Losi.Nome||' ['||Losi.Sinonimo||']' ELSE Losi.Nome END Full_Name "
    ++ codes "FROM Es INNER JOIN Losi ON Losi.Sede = Es.Es1 INNER JOIN Pc ON Losi.Id = Pc2 "
    ++ codes "WHERE Sce_Code = ? ORDER BY Sce_Code DESC"

abbrev pub sce_code_italy : Bytes
sce_code_italy =
    codes "SELECT DISTINCT Co1 Sce_Code, '0000000' Cons_Mae_Code, Co6 Zip_code, "
    ++ codes "Co4 Province, Co2 Istat_Code, Co5 Synonym, NULL Name, Co5 Full_Name FROM Co "
    ++ codes "WHERE Sce_Code = ? ORDER BY Sce_Code DESC"

-- `sql_abroad` with the zip code in place of `%s`; the format has 376 bytes.
abbrev zipcode_abroad : Bytes → Bytes
zipcode_abroad zipcode =
    codes "SELECT DISTINCT Losi.Id Sce_Code, Es.Es4 Cons_Mae_Code, '"
    ++ zipcode
    ++ codes "' Zip_Code, 'EE' Province, "
    ++ codes "'000000' Istat_Code, Losi.Nome Synonym, Losi.Sinonimo Name, "
    ++ codes
        "CASE WHEN LENGTH(Losi.Sinonimo) > 0 THEN Losi.Nome||' ['||Losi.Sinonimo||']' ELSE Losi.Nome END Full_Name "
    ++ codes "FROM Es INNER JOIN Losi ON Losi.Sede = Es.Es1 INNER JOIN Pc ON Losi.Id = Pc2 "
    ++ codes "WHERE Pc.Pc3 = UPPER(?) ORDER BY Full_Name DESC"

-- `sql_united_kingdom`, 403 bytes, with its values in place of `%s` and `%c`. Its end, `%')`, is
-- no conversion that C defines: `rest` is what `snprintf` makes of it.
abbrev zipcode_united_kingdom : Bytes → Bytes → ℕ → Bytes
zipcode_united_kingdom rest zipcode first_letter =
    codes "SELECT DISTINCT Losi.Id Sce_Code, Es.Es4 Cons_Mae_Code, '"
    ++ zipcode
    ++ codes "' Zip_Code, 'EE' Province, "
    ++ codes "'000000' Istat_Code, Losi.Nome Synonym, Losi.Sinonimo Name, "
    ++ codes
        "CASE WHEN LENGTH(Losi.Sinonimo) > 0 THEN Losi.Nome||' ['||Losi.Sinonimo||']' ELSE Losi.Nome END Full_Name "
    ++ codes "FROM Es INNER JOIN Losi ON Losi.Sede = Es.Es1 INNER JOIN Pc_"
    ++ (first_letter ∷ [])
    ++ codes " ON Losi.Id = Pc2 "
    ++ codes "WHERE Pc_"
    ++ (first_letter ∷ [])
    ++ codes ".Pc3 LIKE (SELECT ? || ' "
    ++ rest
    ++ codes " ORDER BY Full_Name DESC LIMIT 1"

abbrev pub zipcode_italy : Bytes
zipcode_italy =
    codes "SELECT DISTINCT Co1 Sce_Code, '0000000' Cons_Mae_Code, Co6 Zip_code, "
    ++ codes "Co4 Province, Co2 Istat_Code, Co5 Synonym, NULL Name, Co5 Full_Name FROM Co "
    ++ codes "WHERE Zip_Code = ? ORDER BY Full_Name DESC"

abbrev pub consulates_territorial : Bytes
consulates_territorial = codes "SELECT DISTINCT Es4 Mae_Code FROM Es"

abbrev pub consulates_of_state : Bytes
consulates_of_state = codes "SELECT DISTINCT Es4 Mae_Code FROM Es WHERE Es5 = ?"

abbrev pub districts : Bytes
districts = codes "SELECT Es.Es4 Mae_Code, Te.Te2 Territory, Te.Te3 Sce_Code FROM Es, Te"

abbrev pub specimina : Bytes
specimina =
    codes
      "SELECT Na1 Cod_State, CASE WHEN LENGTH(Pc3) > 0 THEN Pc3 ELSE 'UNAVAILABLE' END Zip_Code "
    ++ codes
        "FROM (SELECT Pc3, RANDOM() r FROM Pc WHERE Pc3 <> '*' LIMIT 1000) JOIN Na ORDER BY r LIMIT 1"

-- `*zipcode`, the NUL of an empty string
abbrev pub first_byte : Bytes → ℕ
first_byte [] = 0
first_byte (c ∷ s) = c

module _ (S : Sqlite) where
  abbrev Find : {T : Type 0} → GQueue T → Type 0
  Find G = Option (Queue G) → Option (ℤ × Option (Queue G))

  unfoldable pub xsqlite_find_locations_by_name :
      (G : GQueue Location) → (ℕ → Bool) → Option S.Db → Option Bytes → Option Bytes → Bool → Find G
  xsqlite_find_locations_by_name G memory db name province in_italy locations =
      let sql_italy : Bytes = elim province [
        | none ↦ name_italy_without_province
        | some p ↦ name_italy_with_province
      ] in
      let sql = if in_italy then sql_italy else name_abroad in
      xsqlite_query_locations S G memory db (some sql) name province sce_code_unset none locations

  unfoldable pub xsqlite_find_locations_by_sce_code :
      (G : GQueue Location) → (ℕ → Bool) → Option S.Db → ℤ → Bool → Find G
  xsqlite_find_locations_by_sce_code G memory db sce_code in_italy locations =
      let sql = if in_italy then sce_code_italy else sce_code_abroad in
      xsqlite_query_locations S G memory db (some sql) none none sce_code none locations

  -- The text and the zip code of the statement.
  unfoldable pub zipcode_statement : Bytes → Bytes → ℤ → Bytes × Option Bytes
  zipcode_statement rest zipcode cod_state =
      if eqb_ℤ cod_state cod_state_italy
      then (zipcode_italy, some zipcode)
      else if eqb_ℤ cod_state cod_state_uk
      then (
        snprintf (403 + length zipcode) (zipcode_united_kingdom rest zipcode (first_byte zipcode)),
        get_first_token zipcode (codes " "),
      )
      else (snprintf (376 + length zipcode) (zipcode_abroad zipcode), some zipcode)

  -- `rest` is as above. `memory 0` is for the rows, `memory 1 0` for the text of the statement, which
  -- is written through NULL where xmalloc finds none.
  unfoldable pub xsqlite_find_locations_by_zipcode :
      (G : GQueue Location) → (ℕ → ℕ → Bool) → Bytes → Option S.Db → Bytes → ℤ → Find G
  unfolding zipcode_statement
  xsqlite_find_locations_by_zipcode G memory rest db zipcode cod_state locations =
      let (sql, zipcode2) = zipcode_statement rest zipcode cod_state in
      if not (memory 1 0)
      then none
      else xsqlite_query_locations S G (memory 0) db (some sql) none none sce_code_unset zipcode2
          locations

  unfoldable pub xsqlite_find_consulates :
      (G : GQueue Consulate) → (ℕ → Bool) → Option S.Db → ℤ → Bool → Find G
  xsqlite_find_consulates G memory db cod_state territorial_competence consulates =
      let sql = if territorial_competence then consulates_territorial else consulates_of_state in
      xsqlite_query_consulates S G memory db (some sql) cod_state territorial_competence consulates

  unfoldable pub xsqlite_find_consular_districts :
      (G : GQueue ConsularDistrict) → (ℕ → Bool) → Option S.Db → Find G
  xsqlite_find_consular_districts G memory db consular_districts =
      xsqlite_query_consular_districts S G memory db (some districts) consular_districts

  unfoldable pub xsqlite_find_zip_code_specimina :
      (G : GQueue Zipcode) → (ℕ → Bool) → Option S.Db → Find G
  xsqlite_find_zip_code_specimina G memory db zip_code_specimina =
      xsqlite_query_zip_code_specimina S G memory db (some specimina) zip_code_specimina

unfoldable pub xsqlite_find_zip_code_specimen_italy :
    (G : GQueue Zipcode) → Bool → Option (Queue G) → Option (ℤ × Option (Queue G))
xsqlite_find_zip_code_specimen_italy G memory zip_code_specimina = elim (zipcode_create memory) [
  | none ↦ none
  | some z0 ↦
      let z1 = (zipcode_set_cod_state_integer (some z0) cod_state_italy).1 in
      let z2 = (zipcode_set_code z1 (some (codes "80067"))).1 in
      some (pos 0, (queue_push G zip_code_specimina z2).1)
]
