-- ===== src/Orders.antt =====
-- services/CreateOrdersService: the orders controller and the routes that it registers.
pub mod Controller
pub mod Routes
pub mod Ways
pub mod Serving
pub mod Answers
pub mod Total
pub mod Sessions
