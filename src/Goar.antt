-- ===== src/Goar.antt =====
-- What the code takes from the goar library (github.com/everFinance/goar) and from encoding/json:
-- the data types by the fields that the code reads, and the functions as a record of parameters.
-- `Plain` is a value of that record for the tests.
pub mod Types
pub mod Plain
