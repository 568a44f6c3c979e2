-- ===== src/WebPages.antt =====
-- web/app: the pages of the web interface, as what the user and the server's answers make of their state. Markup
-- is left out but for what it shows of the state and which buttons it offers.
pub mod JobList
pub mod QueueForms
pub mod Accounts
pub mod Live
mod Tests
